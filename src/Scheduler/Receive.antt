-- ===== src/Scheduler/Receive.antt =====
-- internal/scheduler/scheduler.go: the branches of `run` that receive workloads, and
-- `GetWorkloadsStatus`. The request to evaluate the jobs that follows new workloads is left out.
pub mod Retires
pub mod Ids
pub mod Distinct
mod Tests
use flotta_device_worker_ng.Base.{
  ℕ, List, [], ◌∷◌, ◌++◌, Option, none, some, get_elem?, set, length, Bytes, insert,
}
use flotta_device_worker_ng.Entity.State.{JobState, exited}
use flotta_device_worker_ng.Entity.Workload.{Workload, WorkloadKind, pod, ansible, k8s}
use flotta_device_worker_ng.Entity.Job.{Job, BackOff, id, mark_for_deletion, set_target_state}
use flotta_device_worker_ng.Scheduler.Util.{substract}
use flotta_device_worker_ng.Scheduler.Store.{Heap, Store, jobs, add}
use flotta_device_worker_ng.Scheduler.Create.{create_job}
use flotta_device_worker_ng.Scheduler.Loop.{Jobs}

abbrev pub change_job : (Job → Job) → ℕ → Option Job → Heap → Heap
change_job f p none h = h
change_job f p (some j) h = set h p (f j)

-- A call of methods on the job at an address.
abbrev pub change : (Job → Job) → ℕ → Heap → Heap
change f p h = change_job f p (get_elem? h p) h

-- A job that is no longer wanted is marked for deletion, and is to exit.
unfoldable pub retire : ℕ → Job → Job
retire now j = set_target_state now exited (mark_for_deletion j)

unfoldable pub retire_all : ℕ → List ℕ → Heap → Heap
retire_all now [] h = h
retire_all now (p ∷ ps) h = retire_all now ps (change (retire now) p h)

abbrev pub id_of : Option Job → Bytes
id_of none = []
id_of (some j) = id j

-- The method `ID` of the job at an address.
abbrev pub id_at : Heap → ℕ → Bytes
id_at h p = id_of (get_elem? h p)

-- A workload of which no job can be made is skipped.
abbrev pub stored : Option Job → Jobs → Jobs
stored none s = s
stored (some j) s = record s { heap = s.heap ++ j ∷ []; store = add (length s.heap) s.store }

module _ (constant : ℕ → BackOff) (parse : Bytes → Option (ℕ → ℕ)) (now : ℕ) where
  unfoldable pub create_all : List Workload → Jobs → Jobs
  create_all [] s = s
  create_all (w ∷ ws) s = create_all ws (stored (create_job constant parse now w) s)

  -- What the branch of `input` does with a message: `none` is an empty configuration.
  unfoldable pub receive : Option (List Workload) → Jobs → Jobs
  receive none s = record s { heap = retire_all now (jobs s.store) s.heap }
  receive (some ws) s =
      let ps = jobs s.store in
      let to_remove = substract (id_at s.heap) (λ w. w.id) ps ws in
      let fresh = substract (λ w. w.id) (id_at s.heap) ws ps in
      let s' = create_all fresh s in record s' { heap = retire_all now to_remove s'.heap }

abbrev pub Status : Type 0
Status = List (Bytes × JobState)

-- Only pods have a status.
abbrev pub with_status : Job → WorkloadKind → Status → Status
with_status j pod status = insert j.workload.name j.current_state status
with_status j ansible status = status
with_status j k8s status = status

abbrev pub status_of : Option Job → Status → Status
status_of none status = status
status_of (some j) status = with_status j j.workload.kind status

unfoldable pub collect_status : Heap → List ℕ → Status → Status
collect_status h [] status = status
collect_status h (p ∷ ps) status = collect_status h ps (status_of (get_elem? h p) status)

-- `GetWorkloadsStatus`.
unfoldable pub get_workloads_status : Jobs → Status
get_workloads_status s = collect_status s.heap (jobs s.store) []
