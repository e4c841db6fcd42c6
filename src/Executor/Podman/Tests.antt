-- ===== src/Executor/Podman/Tests.antt =====
-- Pods that are run at concrete inputs.
use flotta_device_worker_ng.Base.{
  ◌≡◌, ◌≢◌, refl, sym, ap, ◌∙◌, Bool, true, false, List, [], ◌∷◌, Option, none, some, if◌then◌else◌,
  Bytes, codes, str_eq, str_eq_refl, insert, lookup, length, take, arith,
}
use flotta_device_worker_ng.Certificate.Plain.{take-length}
use flotta_device_worker_ng.Entity.State
use flotta_device_worker_ng.Entity.Workload.{
  Workload, WorkloadProfile, PodWorkload, hash, workload_id, to_workload,
}
use flotta_device_worker_ng.Scheduler.Interfaces.{IsFaithful}
use flotta_device_worker_ng.Executor.{Backend, create_executors, dispatch}
use flotta_device_worker_ng.Executor.Composed.{executor-IsFaithful}
use flotta_device_worker_ng.Executor.Settled.{podman_settles}
use flotta_device_worker_ng.Entity.State.{ready, running}
use flotta_device_worker_ng.Entity.Job.{Job, set_current_state, no_resource}
use flotta_device_worker_ng.Scheduler.Visit.{should_reconcile}
use flotta_device_worker_ng.Scheduler.Reconcile.{sync, pod_sync}
use flotta_device_worker_ng.Executor.{get_executor, find_item}
use flotta_device_worker_ng.Executor.Podman.{remove, list, find_state, map_podman_status_to_entity}
use flotta_device_worker_ng.Executor.Podman.Backend.{IsForgetful, backend}
use flotta_device_worker_ng.Configuration.Manager.Plain.{workload}
use flotta_device_worker_ng.Executor.Podman.{
  PodItem, Podman, Pod, our_label, pod_yaml, labelled, run, get_state,
}
use flotta_device_worker_ng.Executor.Podman.Names.{IsPlaying, listed}
use flotta_device_worker_ng.Executor.Podman.Renamed.{text, run_renames}

-- A text that begins with the length of a name and the name.
abbrev name_of : Bytes → Bytes
name_of [] = []
name_of (n ∷ s) = take n s

abbrev running_pods : Option Bytes → List PodItem
running_pods none = []
running_pods (some name) = record { name = name; status = codes "Running" } ∷ []

-- A podman with one pod at most, whose name is the state outside.
abbrev single : Podman (Option Bytes)
single = record {
  unmarshal = λ s. some [];
  marshal = λ (pod : Pod). some (length pod.name ∷ pod.name);
  kube = λ o yaml s. (some (codes "1" ∷ []), some (name_of yaml));
  start = λ i s. (false, s);
  stop = λ i s. (false, s);
  remove = λ i s. (false, none);
  exists = λ i s. (some true, s);
  list = λ s. (some (running_pods s), s);
}

listed_first :
    (name : Bytes) (s : Option Bytes)
    → s ≡ some name
    → listed name (single.list s) ≡ some (codes "Running")
listed_first name s e =
    ap (λ o. listed name (single.list o)) e
    ∙ ap (λ b. if b then some (codes "Running") else none) (str_eq_refl name)

single-IsPlaying : IsPlaying single
unfolding pod_yaml
single-IsPlaying = record {
  lists = λ pod yaml configmaps o i is s s1 s2 m k st.
      let yaml_name : length pod.name ∷ pod.name ≡ yaml = cc m in
      let at_kube : some (name_of (pod_yaml yaml configmaps)) ≡ s1 =
        ap (λ (t : Option (List Bytes) × Option Bytes). t.1) k in
      let at_start : s1 ≡ s2 = ap (λ (t : Bool × Option Bytes). t.1) st in
      let name : name_of (pod_yaml yaml configmaps) ≡ pod.name =
        ap (λ y. name_of (pod_yaml y configmaps)) (sym yaml_name) ∙ take-length pod.name _ in
      listed_first pod.name s2 (sym at_start ∙ sym at_kube ∙ ap some name);
}

single-IsForgetful : IsForgetful single
single-IsForgetful = record {
  removes = λ id s s1 e r.
      let gone : none ≡ s1 = ap (λ (t : Bool × Option Bytes). t.1) e in
      let empty : none ≡ some (codes "Running") = ap (λ o. listed id (single.list o)) gone ∙ r in
      cc empty;
  absent = λ id s s1 e.
      let no : some true ≡ some false = ap (λ (t : Option Bool × Option Bytes). t.0) e in
      absurd (ground (arith, no));
}

abbrev no_profiles : List WorkloadProfile → Bytes
no_profiles ps = []

abbrev itself : Bytes → Bytes
itself s = s

abbrev plain : PodWorkload
plain = workload (codes "a")

-- Behind each value of the interface there is the one workload.
abbrev opened : Workload → PodWorkload
opened w = plain

abbrev no_cluster : Bytes → Option (Backend (Option Bytes))
no_cluster config = none

abbrev plain_workload : Workload
plain_workload = to_workload itself no_profiles plain

executor-IsFaithful_example :
    IsFaithful
      (dispatch (
        create_executors
          (codes "/run/user/1000")
          []
          (λ dir. some (backend itself no_profiles [] opened single))
          no_cluster))
      plain_workload
unfolding to_workload
executor-IsFaithful_example =
    executor-IsFaithful itself no_profiles [] opened single (codes "/run/user/1000") [] no_cluster
      plain_workload single-IsPlaying single-IsForgetful refl refl

abbrev tagged : PodWorkload
tagged = record plain { labels = (codes "app", codes "web") ∷ [] }

run_renames_example :
    ((get_state itself no_profiles [] single tagged
        (some (workload_id itself no_profiles tagged))).0
      ≡ some State.running)
    × ((labelled itself no_profiles [] tagged).labels
        ≡ insert our_label (hash itself no_profiles tagged) tagged.labels)
    × (text itself no_profiles [] (labelled itself no_profiles [] tagged)
        ≢ text itself no_profiles [] tagged)
unfolding run lookup str_eq workload_id pod_yaml hash
run_renames_example =
    run_renames itself no_profiles [] single tagged (labelled itself no_profiles [] tagged) none
      (some (workload_id itself no_profiles tagged)) single-IsPlaying (λ e. cc e) refl refl

abbrev waiting : Job
waiting = record {
  workload = plain_workload;
  current_state = ready;
  target_state = running;
  marked_for_deletion = false;
  cron = none;
  retry = none;
  hooks = [];
  current_resources = no_resource;
  target_resources = no_resource;
}

podman_settles_example : should_reconcile (set_current_state 9 running waiting) ≡ false
unfolding to_workload sync pod_sync dispatch create_executors get_executor find_item backend run
    get_state remove list labelled workload_id pod_yaml hash str_eq find_state
    map_podman_status_to_entity
podman_settles_example =
    podman_settles itself no_profiles [] opened single (codes "/run/user/1000") [] no_cluster
      waiting none (some (workload_id itself no_profiles plain))
      (record { value = running; error = false }) 9 single-IsPlaying single-IsForgetful refl refl
      refl refl
