-- ===== src/Executor/Settled.antt =====
-- A reconciliation over the executor with the backends that it makes for podman.
use flotta_device_worker_ng.Base.{ℕ, ◌≡◌, false, List, [], Option, some, Bytes}
use flotta_device_worker_ng.Entity.Workload.{Workload, WorkloadProfile, PodWorkload, pod}
use flotta_device_worker_ng.Entity.Job.{Job, set_current_state}
use flotta_device_worker_ng.Scheduler.Reconcile.{sync}
use flotta_device_worker_ng.Scheduler.Reconcile.Settles.{sync_settles}
use flotta_device_worker_ng.Scheduler.Visit.{Report, should_reconcile}
use flotta_device_worker_ng.Executor.{Backend, create_executors, dispatch}
use flotta_device_worker_ng.Executor.Podman.{Podman}
use flotta_device_worker_ng.Executor.Podman.Names.{IsPlaying}
use flotta_device_worker_ng.Executor.Podman.Backend.{IsForgetful, backend}
use flotta_device_worker_ng.Executor.Composed.{executor-IsFaithful}

-- A reconciliation, over the podman backends of the executor, of a job whose workload is a pod with a
-- nil map of labels, that reports a state and no error leaves a job that is not reconciled again:
-- podman is to list what has been started as running, and what has been removed or does not exist not
-- as running.
pub podman_settles :
    (sum : Bytes → Bytes) (show_profiles : List WorkloadProfile → Bytes) (device_id : Bytes)
    (opened : Workload → PodWorkload) {W : Type 0} (podman : Podman W) (xdg kube : Bytes)
    (k8s_new : Bytes → Option (Backend W)) (j : Job) (s s' : W) (r : Report) (now : ℕ)
    → IsPlaying podman
    → IsForgetful podman
    → j.workload.kind ≡ pod
    → (opened j.workload).labels ≡ []
    → sync
        (dispatch (
          create_executors xdg kube
            (λ dir. some (backend sum show_profiles device_id opened podman))
            k8s_new))
        pod
        j
        s
      ≡ some (r, s')
    → r.error ≡ false
    → should_reconcile (set_current_state now r.value j) ≡ false
podman_settles sum show_profiles device_id opened podman xdg kube k8s_new j s s' r now l f e n run
      ok =
    sync_settles _ j pod s s' r now
      (executor-IsFaithful sum show_profiles device_id opened podman xdg kube k8s_new j.workload l f
        e n)
      run ok
