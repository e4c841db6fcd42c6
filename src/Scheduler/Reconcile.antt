-- ===== src/Scheduler/Reconcile.antt =====
-- internal/scheduler/reconcile/reconciler.go: what the goroutine of a reconciliation does, with the
-- job as it is when the goroutine reads it. The logger around it returns what it returns. The waits
-- of a second have no effect here.
pub mod Settles
use flotta_device_worker_ng.Base.{
  Bool, true, false, ◌||◌, List, [], ◌∷◌, Option, none, some, if◌then◌else◌,
}
use flotta_device_worker_ng.Entity.State.{
  JobState, running, exited, unknown, inactive, state_eq, one_of,
}
use flotta_device_worker_ng.Entity.Workload.{Workload, WorkloadKind, pod, ansible, k8s}
use flotta_device_worker_ng.Entity.Job.{Job}
use flotta_device_worker_ng.Scheduler.Interfaces.{Executor}
use flotta_device_worker_ng.Scheduler.Visit.{Report}

module _ {W : Type 0} where
  abbrev pub failed : W → Report × W
  failed s = (record { value = unknown; error = true }, s)

  abbrev pub done : JobState → W → Report × W
  done t s = (record { value = t; error = false }, s)

  -- `if err := call; err != nil { return entity.UnknownState, err }`.
  abbrev pub checked : Bool × W → (W → Report × W) → Report × W
  checked (true, s) rest = failed s
  checked (false, s) rest = rest s

  abbrev pub answered : Option JobState × W → Report × W
  answered (none, s) = failed s
  answered (some t, s) = done t s

  module _ (ex : Executor W) where
    abbrev pub start : Workload → W → Report × W
    start w s = checked (ex.run w s) λ s1. answered (ex.get_state w s1)

    -- A workload that exists is removed first.
    abbrev pub restart : Workload → Option Bool × W → Report × W
    restart w (none, s) = failed s
    restart w (some true, s) = checked (ex.remove w s) (start w)
    restart w (some false, s) = start w s

    abbrev pub remove_workload : Workload → W → Report × W
    remove_workload w s = checked (ex.remove w s) λ s1. answered (ex.get_state w s1)

    -- `createPodmanSyncFunc`.
    unfoldable pub pod_sync : Job → W → Report × W
    pod_sync j s =
        if state_eq j.current_state j.target_state
        then done j.current_state s
        else if state_eq j.target_state running
        then restart j.workload (ex.exists j.workload s)
        else if one_of j.target_state (exited ∷ inactive ∷ [])
        then checked (ex.stop j.workload s) (remove_workload j.workload)
        else done j.current_state s

    abbrev pub remove_k8s : Job → W → Report × W
    remove_k8s j s =
        if one_of j.target_state (exited ∷ inactive ∷ unknown ∷ [])
        then remove_workload j.workload s
        else answered (ex.get_state j.workload s)

    -- `createK8SSyncFunc`.
    unfoldable pub k8s_sync : Job → W → Report × W
    k8s_sync j s =
        if state_eq j.current_state j.target_state
        then done j.current_state s
        else if state_eq j.target_state running
        then checked (ex.run j.workload s) (remove_k8s j)
        else remove_k8s j s

    -- The function that `Reconcile` finds for a kind. For the other kind it calls a nil function.
    unfoldable pub sync : WorkloadKind → Job → W → Option (Report × W)
    sync pod j s = some (pod_sync j s)
    sync k8s j s = some (k8s_sync j s)
    sync ansible j s = none
