-- ===== src/Scheduler/Resources/Reconcile.antt =====
-- internal/scheduler/reconcile/resources.go: what the goroutine of a reconciliation of the resources
-- does, with the job as it is when the goroutine reads it.
use flotta_device_worker_ng.Base.{Bool, true, false, Option, none, some, if◌then◌else◌, Bytes}
use flotta_device_worker_ng.Entity.Workload.{WorkloadKind, pod, ansible, k8s}
use flotta_device_worker_ng.Entity.Job.{CpuResource, Job, id, is_empty}
use flotta_device_worker_ng.Scheduler.Resources.{ResourceManager, replace, strip_mount}

-- Whether the error that the goroutine sends is nil, or that it panics.
pub data Answer : Type 0 where
  done failed panicked : Answer

abbrev pub answer_of : Bool → Answer
answer_of true = failed
answer_of false = done

abbrev pub set_answered : {W : Type 0} → Bool × W → Answer × W
set_answered (error, s) = (answer_of error, s)

module _ {W : Type 0} (rm : ResourceManager W) where
  abbrev pub set_at : CpuResource → Option Bytes → W → Answer × W
  set_at r none s = (panicked, s)
  set_at r (some cg) s = set_answered (rm.set cg r s)

  abbrev pub with_path : CpuResource → Option Bytes × W → Answer × W
  with_path r (none, s) = (failed, s)
  with_path r (some cgroup, s) =
      if is_empty cgroup then (failed, s) else set_at r (strip_mount cgroup) s

  -- `createPodResourceReconciliationFunc`.
  unfoldable pub pod_resource_sync : Job → W → Answer × W
  pod_resource_sync j s = with_path j.target_resources (rm.get_cgroup (replace b'-' b'_' (id j)) s)

  -- The function that `Reconcile` finds for a kind. There is one for pods only; the goroutine calls a
  -- nil function for another kind.
  unfoldable pub resource_sync : WorkloadKind → Job → W → Answer × W
  resource_sync pod j s = pod_resource_sync j s
  resource_sync ansible j s = (panicked, s)
  resource_sync k8s j s = (panicked, s)
