-- ===== src/Executor/Podman/Names.antt =====
-- The name under which podman knows a workload that has been run, and the workload's identifier.
use flotta_device_worker_ng.Base.{
  ◌≡◌, refl, sym, ap, ◌∙◌, Bool, true, false, List, [], ◌∷◌, Option, none, some, if◌then◌else◌, map,
  Bytes, codes, str_eq, arith, Bool-cases, inl, inr,
}
use flotta_device_worker_ng.Entity.State
use flotta_device_worker_ng.Entity.State.{JobState}
use flotta_device_worker_ng.Entity.Workload.{WorkloadProfile, PodWorkload, hash, workload_id}
use flotta_device_worker_ng.Executor.Podman.{
  Container, Pod, KubeOptions, PodItem, Podman, map_podman_status_to_entity, Answer, done,
  with_label, pod_of, labelled, pod_yaml, started, reported, played, run_with, run, info_of, infos,
  list, find_state, state_in, get_state,
}

abbrev pub status_in : Bytes → List PodItem → Option Bytes
status_in name [] = none
status_in name (i ∷ is) = if str_eq i.name name then some i.status else status_in name is

abbrev pub listed : {W : Type 0} → Bytes → Option (List PodItem) × W → Option Bytes
listed name (none, s) = none
listed name (some is, s) = status_in name is

-- A podman that lists a pod which has been started, without an error, as running under its name.
pub record IsPlaying {W : Type 0} (podman : Podman W) : Type 0 where
  pub lists :
      (pod : Pod) (yaml : Bytes) (configmaps : List Bytes) (o : KubeOptions) (i : Bytes)
      (is : List Bytes) (s s1 s2 : W)
      → podman.marshal pod ≡ some yaml
      → podman.kube o (pod_yaml yaml configmaps) s ≡ (some (i ∷ is), s1)
      → podman.start i s1 ≡ (false, s2)
      → listed pod.name (podman.list s2) ≡ some (codes "Running")

found_running :
    (name : Bytes) (is : List PodItem)
    → status_in name is ≡ some (codes "Running")
    → find_state name (map info_of is) ≡ State.running
unfolding find_state map_podman_status_to_entity str_eq
found_running name [] e = cc e
found_running name (i ∷ is) e = elim (Bool-cases (str_eq i.name name)) [
  | inl h ↦
      let status : i.status ≡ codes "Running" = ground (arith, h, e) in
      rw h (ap map_podman_status_to_entity status)
  | inr h ↦ rw h (found_running name is (ground (arith, h, e)))
]

pub state_running :
    {W : Type 0} (name : Bytes) (l : Option (List PodItem) × W)
    → listed name l ≡ some (codes "Running")
    → (state_in name (infos l)).0 ≡ some State.running
state_running name (none, s) e = cc e
state_running name (some is, s) e = ap some (found_running name is e)

module _ (sum : Bytes → Bytes) (show_profiles : List WorkloadProfile → Bytes) (device_id : Bytes)
    {W : Type 0} (podman : Podman W) where
  -- What is known of a workload that has been run: podman lists it under its identifier.
  abbrev pub Runs : PodWorkload → W → Type 0
  Runs p s = listed (workload_id sum show_profiles p) (podman.list s) ≡ some (codes "Running")

  started-done : (a : Bool × W) (s : W) → started podman a ≡ (done, s) → a ≡ (false, s)
  started-done (true, t) s e = cc e
  started-done (false, t) s e = ap (λ t. (false, t)) (ap (λ (r : Answer × W). r.1) e)

  reported-done :
      (a : Option (List Bytes) × W) (s : W)
      → reported podman a ≡ (done, s)
      → (i : Bytes) × (is : List Bytes) × (s1 : W) × (a ≡ (some (i ∷ is), s1))
        × (podman.start i s1 ≡ (false, s))
  reported-done (none, t) s e = cc e
  reported-done (some [], t) s e = cc e
  reported-done (some (i ∷ is), t) s e = (i, is, t, refl, started-done (podman.start i t) s e)

  played-Runs :
      (p q : PodWorkload) (cs : List Container) (o : Option Bytes) (s s' : W)
      → IsPlaying podman
      → podman.marshal (pod_of sum show_profiles device_id p cs) ≡ o
      → played sum show_profiles device_id podman q o s ≡ (done, s')
      → Runs p s'
  played-Runs p q cs none s s' l m e = cc e
  played-Runs p q cs (some yaml) s s' l m e =
      let (i, is, s1, kube, start) = reported-done _ s' e in
      l.lists (pod_of sum show_profiles device_id p cs) yaml q.configmaps _ i is s s1 s' m kube
        start

  pub run_with-Runs :
      (p p' : PodWorkload) (o : Option (List Container)) (s s' : W)
      → IsPlaying podman
      → run_with sum show_profiles device_id podman p o s ≡ (done, p', s')
      → (p' ≡ labelled sum show_profiles device_id p) × Runs p s'
  run_with-Runs p p' none s s' l e = cc e
  run_with-Runs p p' (some cs) s s' l e =
      let q = labelled sum show_profiles device_id p in
      let a = podman.marshal (pod_of sum show_profiles device_id p cs) in
      let r = played sum show_profiles device_id podman q a s in
      (
        sym (ap (λ (t : Answer × PodWorkload × W). t.1) e),
        played-Runs p q cs a s s' l refl (ap (λ (t : Answer × PodWorkload × W). (t.0, t.2)) e),
      )

  -- A workload whose map of labels is nil and that is run without an error, by a podman that lists what has been started,
  -- stays as it was, and its state is running.
  pub run_starts :
      (p p' : PodWorkload) (s s' : W)
      → IsPlaying podman
      → p.labels ≡ []
      → run sum show_profiles device_id podman p s ≡ (done, p', s')
      → (p' ≡ p) × ((get_state sum show_profiles device_id podman p' s').0 ≡ some State.running)
  unfolding run labelled get_state list
  run_starts p p' s s' l n e =
      let (same, runs) = run_with-Runs p p' (podman.unmarshal p.specification) s s' l e in
      let kept : p' ≡ p =
        same
        ∙ ap (λ ls. record p { labels = ls })
            (ap (with_label (hash sum show_profiles p)) n ∙ sym n) in
      (
        kept,
        ap (λ q. (get_state sum show_profiles device_id podman q s').0) kept
            ∙ state_running (workload_id sum show_profiles p) (podman.list s') runs,
      )
