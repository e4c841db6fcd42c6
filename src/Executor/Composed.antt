-- ===== src/Executor/Composed.antt =====
-- The executor with the backends that it makes for podman.
use flotta_device_worker_ng.Base.{
  ◌≡◌, sym, subst, Bool, true, false, List, [], Option, some, Bytes, Bool-cases, inl, inr,
}
use flotta_device_worker_ng.Entity.Workload.{Workload, WorkloadProfile, PodWorkload, pod}
use flotta_device_worker_ng.Entity.Job.{is_empty}
use flotta_device_worker_ng.Scheduler.Interfaces.{IsFaithful}
use flotta_device_worker_ng.Executor.{Backend, create_executors, dispatch}
use flotta_device_worker_ng.Executor.Dispatch.{
  Honest, HonestIf, wanted, get_executor-wanted, dispatch-IsFaithful,
}
use flotta_device_worker_ng.Executor.Podman.{Podman}
use flotta_device_worker_ng.Executor.Podman.Names.{IsPlaying}
use flotta_device_worker_ng.Executor.Podman.Backend.{IsForgetful, backend, backend-Honest}

wanted-HonestIf :
    {W : Type 0} (xdg kube : Bytes) (b : Backend W) (k8s_new : Bytes → Option (Backend W))
    (w : Workload)
    → Honest b w
    → w.kind ≡ pod
    → HonestIf w (wanted xdg kube (λ dir. some b) k8s_new w.kind w.is_rootless)
wanted-HonestIf xdg kube b k8s_new w h e =
    subst (λ k. HonestIf w (wanted xdg kube (λ dir. some b) k8s_new k w.is_rootless)) (sym e)
      (at_root w.is_rootless)
  where
    at_root : (r : Bool) → HonestIf w (wanted xdg kube (λ dir. some b) k8s_new pod r)
    at_root true = elim (Bool-cases (is_empty xdg)) [ inl i ↦ rw i tt | inr i ↦ rw i h ]
    at_root false = h

-- The executor over the backends that it makes, where podman can be reached, keeps the promises that
-- the scheduler relies on, for each workload that is a pod and whose map of labels is nil: podman is
-- to list what has been started as running, and what has been removed or does not exist not as
-- running.
pub executor-IsFaithful :
    (sum : Bytes → Bytes) (show_profiles : List WorkloadProfile → Bytes) (device_id : Bytes)
    (opened : Workload → PodWorkload) {W : Type 0} (podman : Podman W) (xdg kube : Bytes)
    (k8s_new : Bytes → Option (Backend W)) (w : Workload)
    → IsPlaying podman
    → IsForgetful podman
    → w.kind ≡ pod
    → (opened w).labels ≡ []
    → IsFaithful
        (dispatch (
          create_executors xdg kube
            (λ dir. some (backend sum show_profiles device_id opened podman))
            k8s_new))
        w
executor-IsFaithful sum show_profiles device_id opened podman xdg kube k8s_new w l f e n =
    let b = backend sum show_profiles device_id opened podman in
    dispatch-IsFaithful _ w (
      subst (HonestIf w) (sym (get_executor-wanted xdg kube (λ dir. some b) k8s_new w)) (
        wanted-HonestIf xdg kube b k8s_new w
          (backend-Honest sum show_profiles device_id opened podman w l f n) e))
