-- ===== src/Executor/K8s.antt =====
-- internal/executor/k8s/executor.go: the backend for Kubernetes.
pub mod Selector
use flotta_device_worker_ng.Base.{
  Bool, true, false, List, [], ◌∷◌, Option, none, some, if◌then◌else◌, map, Bytes, codes, str_eq,
  take,
}
use flotta_device_worker_ng.Entity.State.{JobState, running, unknown}
use flotta_device_worker_ng.Entity.Workload.{WorkloadProfile, PodWorkload, workload_id}
use flotta_device_worker_ng.Executor.Podman.{Container, with_env, labelled, WorkloadInfo}

pub record Deployment : Type 0 where
  pub name : Bytes
  pub match_labels : List (Bytes × Bytes)
  pub template_labels : List (Bytes × Bytes)
  pub containers : List Container

-- The package yaml and the client of Kubernetes, by namespaces. A Boolean answer is whether the error
-- is not nil, `none` is an error, and `list` gives the names of the deployments.
pub record Cluster (W : Type 0) : Type 0 where
  pub unmarshal : Bytes → Option (List Container)
  pub create : Bytes → Deployment → W → Bool × W
  pub delete : Bytes → Bytes → W → Bool × W
  pub list : Bytes → W → Option (List Bytes) × W

-- The names of the deployments are compared with the identifier.
unfoldable pub find_deployment : Bytes → List Bytes → JobState
find_deployment id [] = unknown
find_deployment id (n ∷ ns) = if str_eq n id then running else find_deployment id ns

abbrev pub state_in : {W : Type 0} → Bytes → Option (List Bytes) × W → Option JobState × W
state_in id (none, s) = (none, s)
state_in id (some ns, s) = (some (find_deployment id ns), s)

-- `Exists`, `Start` and `Stop` are not implemented, and `List` is empty.
abbrev pub exists : {W : Type 0} → Bytes → W → Option Bool × W
exists id s = (none, s)

abbrev pub start : {W : Type 0} → Bytes → W → Bool × W
start id s = (true, s)

abbrev pub stop : {W : Type 0} → Bytes → W → Bool × W
stop id s = (true, s)

abbrev pub list : {W : Type 0} → W → Option (List WorkloadInfo) × W
list s = (some [], s)

module _ (sum : Bytes → Bytes) (show_profiles : List WorkloadProfile → Bytes)
    (device_id : Bytes) where
  -- An identifier has more than twelve bytes, so that its slice does not panic.
  abbrev pub selector : PodWorkload → List (Bytes × Bytes)
  selector p = (codes "id", take 12 (workload_id sum show_profiles p)) ∷ []

  -- The deployment that `Run` makes of a workload, which is the one behind `ToPod`.
  unfoldable pub deployment_of : PodWorkload → List Container → Deployment
  deployment_of p containers = record {
    name = workload_id sum show_profiles p;
    match_labels = selector p;
    template_labels = selector p;
    containers = map (with_env sum show_profiles device_id) containers;
  }

  module _ {W : Type 0} (cluster : Cluster W) where
    abbrev pub created : PodWorkload → Bool × W → Bool × PodWorkload × W
    created p (e, s) = (e, p, s)

    abbrev pub run_with : PodWorkload → Option (List Container) → W → Bool × PodWorkload × W
    run_with p none s = (true, p, s)
    run_with p (some containers) s =
        let p' = labelled sum show_profiles device_id p in
        created p' (cluster.create p'.namespace (deployment_of p' containers) s)

    -- `Run`, with the workload behind it.
    unfoldable pub run : PodWorkload → W → Bool × PodWorkload × W
    run p s = run_with p (cluster.unmarshal p.specification) s

    -- `Remove`.
    unfoldable pub remove : PodWorkload → W → Bool × W
    remove p s = cluster.delete p.namespace (workload_id sum show_profiles p) s

    -- `GetState`: a deployment that is there runs.
    unfoldable pub get_state : PodWorkload → W → Option JobState × W
    get_state p s = state_in (workload_id sum show_profiles p) (cluster.list p.namespace s)
