-- ===== src/Executor/Dispatch.antt =====
-- Which backend a workload gets, and what the executor keeps of the backends' promises.
use flotta_device_worker_ng.Base.{
  ◌≡◌, Bool, true, false, List, Option, none, some, if◌then◌else◌, Bytes, codes, arith,
}
use flotta_device_worker_ng.Entity.State.{running, state_eq}
use flotta_device_worker_ng.Entity.Workload.{Workload, WorkloadKind, pod, ansible, k8s}
use flotta_device_worker_ng.Entity.Job.{is_empty}
use flotta_device_worker_ng.Scheduler.Interfaces.{Shown, IsFaithful}
use flotta_device_worker_ng.Executor.{
  Backend, ExecutorItem, find_item, get_executor, with_executor, dispatch, create_executors,
}

-- The backend that a workload's kind asks for.
abbrev pub wanted :
    {W : Type 0}
    → Bytes
    → Bytes
    → (Bytes → Option (Backend W))
    → (Bytes → Option (Backend W))
    → WorkloadKind
    → Bool
    → Option (Backend W)
wanted xdg kube podman_new k8s_new pod true = if is_empty xdg then none else podman_new xdg
wanted xdg kube podman_new k8s_new pod false = podman_new (codes "/run")
wanted xdg kube podman_new k8s_new k8s rootless = if is_empty kube then none else k8s_new kube
wanted xdg kube podman_new k8s_new ansible rootless = none

-- A rootless pod gets the podman of the user's runtime directory, if there is one, another pod that of
-- the system, and a deployment the backend of the cluster, if it is configured. A backend that could
-- not be made is found for no workload, and no workload of the third kind has one.
pub get_executor-wanted :
    {W : Type 0} (xdg kube : Bytes) (podman_new k8s_new : Bytes → Option (Backend W)) (w : Workload)
    → get_executor (create_executors xdg kube podman_new k8s_new) w
      ≡ wanted xdg kube podman_new k8s_new w.kind w.is_rootless
unfolding get_executor create_executors find_item
get_executor-wanted xdg kube podman_new k8s_new w = ground arith

-- A backend that keeps the promises of an executor for a workload.
pub record Honest {W : Type 0} (b : Backend W) (w : Workload) : Type 0 where
  pub run_starts : (s : W) → Shown (λ t. t ≡ running) (b.run w s).0 (b.get_state w (b.run w s).1).0
  pub remove_stops :
      (s : W)
      → Shown (λ t. state_eq t running ≡ false) (b.remove w s).0 (b.get_state w (b.remove w s).1).0

abbrev pub HonestIf : {W : Type 0} → Workload → Option (Backend W) → Type 0
HonestIf w none = Unit {0}
HonestIf w (some b) = Honest b w

module _ {W : Type 0} (w : Workload) (s : W) where
  runs :
      (o : Option (Backend W))
      → HonestIf w o
      → let ran = with_executor true o (λ b. b.run w) s in
        Shown (λ t. t ≡ running) ran.0 (with_executor none o (λ b. b.get_state w) ran.1).0
  runs none h = tt
  runs (some b) h = h.run_starts s

  removes :
      (o : Option (Backend W))
      → HonestIf w o
      → let gone = with_executor true o (λ b. b.remove w) s in
        Shown
          (λ t. state_eq t running ≡ false)
          gone.0
          (with_executor none o (λ b. b.get_state w) gone.1).0
  removes none h = tt
  removes (some b) h = h.remove_stops s

-- The executor keeps its promises for a workload if the backend that the workload gets keeps them, or
-- if it gets none.
pub dispatch-IsFaithful :
    {W : Type 0} (items : List (ExecutorItem W)) (w : Workload)
    → HonestIf w (get_executor items w)
    → IsFaithful (dispatch items) w
unfolding dispatch
dispatch-IsFaithful items w h = record {
  run_starts = λ s. runs w s (get_executor items w) h;
  remove_stops = λ s. removes w s (get_executor items w) h;
}
