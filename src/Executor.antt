-- ===== src/Executor.antt =====
-- internal/executor/executor.go: the executor that hands a workload to the backend of its kind. `W`
-- is the state of the system outside; a Boolean answer is whether the error is not nil.
pub mod Dispatch
pub mod Podman
pub mod K8s
pub mod Composed
pub mod Settled
use flotta_device_worker_ng.Base.{
  Bool, true, false, ◌&&◌, List, [], ◌∷◌, ◌++◌, Option, none, some, if◌then◌else◌, ◌==◌, Bytes,
  codes, str_eq, ℕ,
}
use flotta_device_worker_ng.Entity.State.{JobState}
use flotta_device_worker_ng.Entity.Workload.{Workload, WorkloadKind, pod, ansible, k8s, is_pod}
use flotta_device_worker_ng.Entity.Job.{is_empty}
use flotta_device_worker_ng.Scheduler.Interfaces
use flotta_device_worker_ng.Scheduler.Interfaces.{Executor}

-- The interface `executor`: a backend is stopped and asked by identifier.
pub record Backend (W : Type 0) : Type 0 where
  pub remove : Workload → W → Bool × W
  pub run : Workload → W → Bool × W
  pub stop : Bytes → W → Bool × W
  pub get_state : Workload → W → Option JobState × W
  pub exists : Bytes → W → Option Bool × W

pub record ExecutorItem (W : Type 0) : Type 0 where
  pub name : Bytes
  pub rootless : Bool
  pub kind : WorkloadKind
  pub value : Backend W

-- `==` on kinds, and on Booleans.
abbrev pub kind_eq : WorkloadKind → WorkloadKind → Bool
kind_eq pod pod = true
kind_eq ansible ansible = true
kind_eq k8s k8s = true
kind_eq _ _ = false

abbrev pub bool_eq : Bool → Bool → Bool
bool_eq true true = true
bool_eq false false = true
bool_eq _ _ = false

module _ {W : Type 0} where
  -- The local function of `getExecutor`: the first item of a kind.
  unfoldable pub find_item : List (ExecutorItem W) → WorkloadKind → Bool → Option (Backend W)
  find_item [] kind rootless = none
  find_item (i ∷ items) kind rootless =
      if kind_eq i.kind kind && bool_eq i.rootless rootless
      then some i.value
      else find_item items kind rootless

  -- Only a pod has a rootless executor.
  unfoldable pub get_executor : List (ExecutorItem W) → Workload → Option (Backend W)
  get_executor items w =
      if is_pod w.kind then find_item items w.kind w.is_rootless else find_item items w.kind false

  -- An operation of the executor: the backend's, or the error that there is no backend.
  abbrev pub with_executor :
      {A : Type 0} → A → Option (Backend W) → (Backend W → W → A × W) → W → A × W
  with_executor missing none op s = (missing, s)
  with_executor missing (some b) op s = op b s

  -- `Remove`, `Run`, `Stop`, `GetState` and `Exists`. The errors of the backends are passed on.
  unfoldable pub dispatch : List (ExecutorItem W) → Executor W
  dispatch items = record {
    remove = λ w. with_executor true (get_executor items w) (λ b. b.remove w);
    run = λ w. with_executor true (get_executor items w) (λ b. b.run w);
    stop = λ w. with_executor true (get_executor items w) (λ b. b.stop w.id);
    get_state = λ w. with_executor none (get_executor items w) (λ b. b.get_state w);
    exists = λ w. with_executor none (get_executor items w) (λ b. b.exists w.id);
  }

  abbrev pub appended : List (ExecutorItem W) → Option (ExecutorItem W) → List (ExecutorItem W)
  appended items none = items
  appended items (some i) = items ++ i ∷ []

  abbrev pub item : Bytes → Bool → WorkloadKind → Option (Backend W) → Option (ExecutorItem W)
  item name rootless kind none = none
  item name rootless kind (some b) =
      some (record { name = name; rootless = rootless; kind = kind; value = b })

  -- `createExecutors`, with `config.GetXDGRuntimeDir()`, `config.GetKubeConfig()`, and the two `New`
  -- of the backends, `none` where they fail.
  unfoldable pub create_executors :
      Bytes
      → Bytes
      → (Bytes → Option (Backend W))
      → (Bytes → Option (Backend W))
      → List (ExecutorItem W)
  create_executors xdg kube podman_new k8s_new =
      let rootless =
        if is_empty xdg
        then []
        else appended [] (item (codes "podman") true pod (podman_new xdg)) in
      let rootfull =
        appended rootless (item (codes "podman") false pod (podman_new (codes "/run"))) in
      if is_empty kube
      then rootfull
      else appended rootfull (item (codes "k8s") false k8s (k8s_new kube))
