-- ===== src/Executor/Podman/Backend.antt =====
-- internal/executor/podman/executor.go: the podman executor as a backend of the executor.
use flotta_device_worker_ng.Base.{
  ◌≡◌, ◌≢◌, refl, sym, ap, ◌∙◌, Bool, true, false, List, [], ◌∷◌, Option, none, some, map, Bytes,
  codes, str_eq, str_eq_iff, arith, Bool-cases, inl, inr,
}
use flotta_device_worker_ng.Entity.State
use flotta_device_worker_ng.Entity.State.{JobState, state_eq}
use flotta_device_worker_ng.Entity.Workload.{Workload, WorkloadProfile, PodWorkload, workload_id}
use flotta_device_worker_ng.Scheduler.Interfaces.{Shown}
use flotta_device_worker_ng.Executor.{Backend}
use flotta_device_worker_ng.Executor.Dispatch.{Honest}
use flotta_device_worker_ng.Executor.Podman.{
  PodItem, Podman, Answer, done, failed, panicked, map_podman_status_to_entity, info_of, infos,
  find_state, state_in, remove_existing, remove, stop, list, run, get_state,
}
use flotta_device_worker_ng.Executor.Podman.Names.{status_in, listed, IsPlaying, run_starts}

-- A podman that does not list a pod as running which it has removed, or of which it says that it does
-- not exist.
pub record IsForgetful {W : Type 0} (podman : Podman W) : Type 0 where
  pub removes :
      (id : Bytes) (s s1 : W)
      → podman.remove id s ≡ (false, s1)
      → listed id (podman.list s1) ≢ some (codes "Running")
  pub absent :
      (id : Bytes) (s s1 : W)
      → podman.exists id s ≡ (some false, s1)
      → listed id (podman.list s1) ≢ some (codes "Running")

other_status :
    (s : Bytes)
    → s ≢ codes "Running"
    → state_eq (map_podman_status_to_entity s) State.running ≡ false
unfolding map_podman_status_to_entity
other_status s n = elim (Bool-cases (str_eq s (codes "Running"))) [
  | inl h ↦ absurd (n ((str_eq_iff s (codes "Running")).0 h))
  | inr h ↦ rw h (ground arith)
]

found_other :
    (name : Bytes) (is : List PodItem)
    → status_in name is ≢ some (codes "Running")
    → state_eq (find_state name (map info_of is)) State.running ≡ false
unfolding find_state
found_other name [] n = refl
found_other name (i ∷ is) n = elim (Bool-cases (str_eq i.name name)) [
  | inl h ↦ rw h (other_status i.status (λ e. n (rw h (ap some e))))
  | inr h ↦ rw h (found_other name is (λ e. n (rw h e)))
]

abbrev NotRunning : JobState → Type 0
NotRunning t = state_eq t State.running ≡ false

state_other :
    {W : Type 0} (name : Bytes) (l : Option (List PodItem) × W)
    → listed name l ≢ some (codes "Running")
    → Shown NotRunning false (state_in name (infos l)).0
state_other name (none, s) n = tt
state_other name (some is, s) n = found_other name is n

shown :
    (P : JobState → Type 0) (b : Bool) (o : Option JobState) (t : JobState)
    → o ≡ some t
    → P t
    → Shown P b o
shown P b o t e h = rw e (shown_some b)
  where
    shown_some : (c : Bool) → Shown P c (some t)
    shown_some true = tt
    shown_some false = h

-- `sum`, `show_profiles` and `device_id` are as for the executor, and `opened` is the pod workload
-- that stands behind a value of the interface.
module _ (sum : Bytes → Bytes) (show_profiles : List WorkloadProfile → Bytes) (device_id : Bytes)
    (opened : Workload → PodWorkload) {W : Type 0} (podman : Podman W) where
  -- Whether an error is told; a panic is not told apart from an error here.
  abbrev pub told : Answer × PodWorkload × W → Bool × W
  told (done, p, s) = (false, s)
  told (failed, p, s) = (true, s)
  told (panicked, p, s) = (true, s)

  -- The workload keeps its identifier, as it does where its map of labels is nil.
  unfoldable pub backend : Backend W
  backend = record {
    remove = λ w. remove podman (workload_id sum show_profiles (opened w));
    run = λ w s. told (run sum show_profiles device_id podman (opened w) s);
    stop = stop podman;
    get_state = λ w. get_state sum show_profiles device_id podman (opened w);
    exists = podman.exists;
  }

  Shown-run :
      (p : PodWorkload) (s : W) (r : Answer × PodWorkload × W)
      → IsPlaying podman
      → p.labels ≡ []
      → run sum show_profiles device_id podman p s ≡ r
      → Shown
          (λ t. t ≡ State.running)
          (told r).0
          (get_state sum show_profiles device_id podman p (told r).1).0
  Shown-run p s (done, q, s1) l n e =
      let (same, runs) = run_starts sum show_profiles device_id podman p q s s1 l n e in
      shown (λ t. t ≡ State.running) false _ State.running
        (ap (λ o. (get_state sum show_profiles device_id podman o s1).0) (sym same) ∙ runs) refl
  Shown-run p s (failed, q, s1) l n e = tt
  Shown-run p s (panicked, q, s1) l n e = tt

  Shown-removed :
      (id : Bytes) (s : W) (r : Bool × W)
      → IsForgetful podman
      → podman.remove id s ≡ r
      → Shown NotRunning r.0 (state_in id (infos (podman.list r.1))).0
  Shown-removed id s (true, s1) f e = tt
  Shown-removed id s (false, s1) f e = state_other id (podman.list s1) (f.removes id s s1 e)

  Shown-gone :
      (id : Bytes) (s : W) (a : Option Bool × W)
      → IsForgetful podman
      → podman.exists id s ≡ a
      → let r = remove_existing podman id a in
        Shown NotRunning r.0 (state_in id (infos (podman.list r.1))).0
  Shown-gone id s (none, s1) f e = tt
  Shown-gone id s (some false, s1) f e = state_other id (podman.list s1) (f.absent id s s1 e)
  Shown-gone id s (some true, s1) f e = Shown-removed id s1 (podman.remove id s1) f refl

  -- Over a podman that lists what has been started as running, and what has been removed or does not
  -- exist not as running, the podman executor is a backend that keeps the promises of an executor for
  -- each workload whose map of labels is nil.
  pub backend-Honest :
      (w : Workload)
      → IsPlaying podman
      → IsForgetful podman
      → (opened w).labels ≡ []
      → Honest backend w
  unfolding backend remove get_state list
  backend-Honest w l f n = record {
    run_starts = λ s. Shown-run (opened w) s _ l n refl;
    remove_stops = λ s. Shown-gone (workload_id sum show_profiles (opened w)) s _ f refl;
  }
