-- ===== src/Executor/Podman.antt =====
-- internal/executor/podman and internal/executor/common/util.go: the backend for podman.
pub mod Names
pub mod Renamed
pub mod Backend
mod Tests
use flotta_device_worker_ng.Base.{
  Bool, true, false, List, [], ◌∷◌, ◌++◌, Option, none, some, if◌then◌else◌, map, Bytes, codes,
  str_eq, insert,
}
use flotta_device_worker_ng.Entity.State
use flotta_device_worker_ng.Entity.State.{JobState, degraded, exited, error, unknown}
use flotta_device_worker_ng.Entity.Workload.{WorkloadProfile, PodWorkload, hash, workload_id}
use flotta_device_worker_ng.Scheduler.Resources.{replace}

-- A container of a pod's specification; `content` is all but its environment.
pub record Container : Type 0 where
  pub content : Bytes
  pub env : List (Bytes × Bytes)

pub record Pod : Type 0 where
  pub kind : Bytes
  pub name : Bytes
  pub annotations : List (Bytes × Bytes)
  pub labels : List (Bytes × Bytes)
  pub containers : List Container

-- `common.WorkloadInfo`.
pub record WorkloadInfo : Type 0 where
  pub id : Bytes
  pub name : Bytes
  pub status : Bytes

-- The options of `play.Kube` that depend on the workload.
pub record KubeOptions : Type 0 where
  pub authfile : Bytes
  pub annotations : List (Bytes × Bytes)
  pub cgroup_parent : Bytes

-- The name and the status of a pod of podman's list.
pub record PodItem : Type 0 where
  pub name : Bytes
  pub status : Bytes

-- The package yaml and the bindings of podman. A Boolean answer is whether the error is not nil, and
-- `none` is an error. `kube` reads a file with the text and reports the pods that it makes.
pub record Podman (W : Type 0) : Type 0 where
  pub unmarshal : Bytes → Option (List Container)
  pub marshal : Pod → Option Bytes
  pub kube : KubeOptions → Bytes → W → Option (List Bytes) × W
  pub start : Bytes → W → Bool × W
  pub stop : Bytes → W → Bool × W
  pub remove : Bytes → W → Bool × W
  pub exists : Bytes → W → Option Bool × W
  pub list : W → Option (List PodItem) × W

-- `mapPodmanStatusToEntity`.
unfoldable pub map_podman_status_to_entity : Bytes → JobState
map_podman_status_to_entity s =
    if str_eq s (codes "Running")
    then State.running
    else if str_eq s (codes "Degraded")
    then degraded
    else if str_eq s (codes "Stopped")
    then State.stopped
    else if str_eq s (codes "Error")
    then error
    else if str_eq s (codes "Exited")
    then exited
    else unknown

-- What `Run` returns, or that it panics.
pub data Answer : Type 0 where
  done failed panicked : Answer

abbrev pub answer_of : Bool → Answer
answer_of true = failed
answer_of false = done

abbrev pub our_label : Bytes
our_label = codes "project-flotta.io"

abbrev pub with_label : Bytes → List (Bytes × Bytes) → List (Bytes × Bytes)
with_label h [] = []
with_label h (l ∷ ls) = insert our_label h (l ∷ ls)

-- `ToPodYaml`.
abbrev pub join_configmaps : List Bytes → Bytes
join_configmaps [] = []
join_configmaps (c ∷ []) = c
join_configmaps (c ∷ (d ∷ cs)) = c ++ (codes "---\n" ++ join_configmaps (d ∷ cs))

unfoldable pub pod_yaml : Bytes → List Bytes → Bytes
pod_yaml yaml configmaps = yaml ++ (codes "---\n" ++ join_configmaps configmaps)

abbrev pub info_of : PodItem → WorkloadInfo
info_of i = record { id = i.name; name = i.name; status = i.status }

abbrev pub infos : {W : Type 0} → Option (List PodItem) × W → Option (List WorkloadInfo) × W
infos (none, s) = (none, s)
infos (some items, s) = (some (map info_of items), s)

unfoldable pub find_state : Bytes → List WorkloadInfo → JobState
find_state id [] = unknown
find_state id (i ∷ is) =
    if str_eq i.id id then map_podman_status_to_entity i.status else find_state id is

abbrev pub state_in : {W : Type 0} → Bytes → Option (List WorkloadInfo) × W → Option JobState × W
state_in id (none, s) = (none, s)
state_in id (some is, s) = (some (find_state id is), s)

module _ {W : Type 0} (podman : Podman W) where
  abbrev pub started : Bool × W → Answer × W
  started (e, s) = (answer_of e, s)

  -- The first pod of the report is started; a report without pods is indexed all the same.
  abbrev pub reported : Option (List Bytes) × W → Answer × W
  reported (none, s) = (failed, s)
  reported (some [], s) = (panicked, s)
  reported (some (i ∷ is), s) = started (podman.start i s)

  abbrev pub remove_existing : Bytes → Option Bool × W → Bool × W
  remove_existing id (none, s) = (true, s)
  remove_existing id (some false, s) = (false, s)
  remove_existing id (some true, s) = podman.remove id s

  -- `Remove` of podman.go, by an identifier.
  unfoldable pub remove : Bytes → W → Bool × W
  remove id s = remove_existing id (podman.exists id s)

  abbrev pub then_remove : Bytes → Bool × W → Bool × W
  then_remove id (true, s) = (true, s)
  then_remove id (false, s) = remove id s

  abbrev pub stop_existing : Bytes → Option Bool × W → Bool × W
  stop_existing id (none, s) = (true, s)
  stop_existing id (some false, s) = remove id s
  stop_existing id (some true, s) = then_remove id (podman.stop id s)

  -- `Stop`.
  unfoldable pub stop : Bytes → W → Bool × W
  stop id s = stop_existing id (podman.exists id s)

  -- `List`.
  unfoldable pub list : W → Option (List WorkloadInfo) × W
  list s = infos (podman.list s)

-- `sum` and `show_profiles` are as in the hash of a workload, and `device_id` is `config.GetDeviceID()`.
module _ (sum : Bytes → Bytes) (show_profiles : List WorkloadProfile → Bytes)
    (device_id : Bytes) where
  abbrev pub with_env : Container → Container
  with_env c = record c { env = c.env ++ (codes "DEVICE_ID", device_id) ∷ [] }

  abbrev pub pod_of : PodWorkload → List Container → Pod
  pod_of p containers = record {
    kind = codes "Pod";
    name = workload_id sum show_profiles p;
    annotations = p.annotations;
    labels = insert our_label (hash sum show_profiles p) p.labels;
    containers = map with_env containers;
  }

  -- The workload behind `ToPod`: its map of labels is the pod's, which gets a label more. A map
  -- without labels is nil here, and the pod gets a map of its own.
  unfoldable pub labelled : PodWorkload → PodWorkload
  labelled p = record p { labels = with_label (hash sum show_profiles p) p.labels }

  -- `createPodCGroupParent`.
  unfoldable pub cgroup_parent : PodWorkload → Bytes
  cgroup_parent p =
      (if p.rootless then codes "flotta-" else codes "machine-flotta-")
      ++ (replace b'-' b'_' (workload_id sum show_profiles p) ++ codes ".slice")

  module _ {W : Type 0} (podman : Podman W) where
    -- The workload is the one behind `ToPod`.
    abbrev pub played : PodWorkload → Option Bytes → W → Answer × W
    played p none s = (failed, s)
    played p (some yaml) s = reported podman (
        podman.kube
          (record {
            authfile = p.image_registry_auth;
            annotations = p.annotations;
            cgroup_parent = cgroup_parent p;
          })
          (pod_yaml yaml p.configmaps) s)

    abbrev pub run_with : PodWorkload → Option (List Container) → W → Answer × PodWorkload × W
    run_with p none s = (failed, p, s)
    run_with p (some containers) s =
        let p' = labelled p in
        let (a, s1) = played p' (podman.marshal (pod_of p containers)) s in (a, p', s1)

    -- `Run`, with the workload behind it. The temporary file can be made.
    unfoldable pub run : PodWorkload → W → Answer × PodWorkload × W
    run p s = run_with p (podman.unmarshal p.specification) s

    -- `GetState`.
    unfoldable pub get_state : PodWorkload → W → Option JobState × W
    get_state p s = state_in (workload_id sum show_profiles p) (list podman s)
