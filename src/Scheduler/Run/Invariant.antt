-- ===== src/Scheduler/Run/Invariant.antt =====
-- What every run of the scheduler's loop keeps: its pointers point to jobs, and no two jobs have one
-- identifier.
use flotta_device_worker_ng.Base.{
  ℕ, ◌<◌, ◌≡◌, refl, sym, ap, ap₂, ◌∙◌, subst, inl, inr, Bool, true, false, List, [], ◌∷◌, ◌⊎◌,
  Option, none, some, if◌then◌else◌, get_elem?, set, length, All, map, Bool-cases, arith, Bytes,
}
use flotta_device_worker_ng.Entity.State.{JobState, running, inactive}
use flotta_device_worker_ng.Entity.Workload.{Workload}
use flotta_device_worker_ng.Entity.Job.{
  CpuResource, Job, id, set_target_state, set_target_resources,
}
use flotta_device_worker_ng.Entity.Job.States.{set_target_state_lem}
use flotta_device_worker_ng.Profile.Results.{ProfileEvaluationResult}
use flotta_device_worker_ng.Scheduler.Util.Laws.{has, Distinct}
use flotta_device_worker_ng.Scheduler.Store
use flotta_device_worker_ng.Scheduler.Store.{Heap, Store, jobs, new_store, has_id}
use flotta_device_worker_ng.Scheduler.Store.Laws.{erase, IsSlice, jobs-delete}
use flotta_device_worker_ng.Scheduler.Visit.{Futures}
use flotta_device_worker_ng.Scheduler.Evaluate.{evaluate}
use flotta_device_worker_ng.Scheduler.Loop.{Jobs}
use flotta_device_worker_ng.Scheduler.Receive.{change, change_job, retire, retire_all, id_at}
use flotta_device_worker_ng.Scheduler.Receive.Ids.{
  ids, IsInHeap, itself, set_id, retire-id, length-set,
}
use flotta_device_worker_ng.Scheduler.Run.{
  with_resource, apply_evaluation, evaluate_job, evaluate_all,
}

-- A heap with jobs of the same identifiers at the same addresses.
pub record Renews (h h' : Heap) : Type 0 where
  pub size : length h' ≡ length h
  pub same : (q : ℕ) → id_at h' q ≡ id_at h q

pub Renews-trans : {h i k : Heap} → Renews h i → Renews i k → Renews h k
Renews-trans a b = record { size = b.size ∙ a.size; same = λ q. b.same q ∙ a.same q }

pub set-Renews :
    (h : Heap) (p : ℕ) (j k : Job) → get_elem? h p ≡ some j → id k ≡ id j → Renews h (set h p k)
set-Renews h p j k e i = record { size = length-set h p k; same = λ q. set_id h p q j k e i }

change-Renews :
    (f : Job → Job) (p : ℕ) (o : Option Job) (h : Heap)
    → ((j : Job) → id (f j) ≡ id j)
    → get_elem? h p ≡ o
    → Renews h (change_job f p o h)
change-Renews f p none h i e = record { size = refl; same = λ q. refl }
change-Renews f p (some j) h i e = set-Renews h p j (f j) e (i j)

set_target-id : (now : ℕ) (s : JobState) (j : Job) → id (set_target_state now s j) ≡ id j
set_target-id now s j = ap (λ (w : Workload). w.id) (set_target_state_lem now s j).3

with_resource-id : (o : Option CpuResource) (j : Job) → id (with_resource o j) ≡ id j
unfolding set_target_resources
with_resource-id none j = refl
with_resource-id (some r) j = refl

if-id : (b : Bool) (j k i : Job) → id j ≡ id i → id k ≡ id i → id (if b then j else k) ≡ id i
if-id true j k i e f = e
if-id false j k i e f = f

evaluate_job-id :
    (now : ℕ) (rs : List ProfileEvaluationResult) (j : Job) → id (evaluate_job now rs j) ≡ id j
unfolding evaluate_job
evaluate_job-id now rs j =
    let ev = evaluate j.workload.profiles rs in
    let on = with_resource ev.resource (set_target_state now running j) in
    let off = set_target_state now inactive j in
    if-id j.marked_for_deletion j (apply_evaluation now ev j) j refl (
      if-id ev.active on off j
        (with_resource-id ev.resource (set_target_state now running j)
          ∙ set_target-id now running j)
        (set_target-id now inactive j))

pub evaluate_all-Renews :
    (now : ℕ) (rs : List ProfileEvaluationResult) (ps : List ℕ) (h : Heap)
    → Renews h (evaluate_all now rs ps h)
unfolding evaluate_all
evaluate_all-Renews now rs [] h = record { size = refl; same = λ q. refl }
evaluate_all-Renews now rs (p ∷ ps) h =
    Renews-trans
      (change-Renews (evaluate_job now rs) p (get_elem? h p) h (evaluate_job-id now rs) refl)
      (evaluate_all-Renews now rs ps (change (evaluate_job now rs) p h))

pub retire_all-Renews : (now : ℕ) (ps : List ℕ) (h : Heap) → Renews h (retire_all now ps h)
unfolding retire_all
retire_all-Renews now [] h = record { size = refl; same = λ q. refl }
retire_all-Renews now (p ∷ ps) h =
    Renews-trans (change-Renews (retire now) p (get_elem? h p) h (retire-id now) refl)
      (retire_all-Renews now ps (change (retire now) p h))

-- The slice lies within its array and its pointers point to jobs, no two of which have one identifier,
-- unless there were renames.
pub record IsGood (renamed : Bool) (s : Jobs) : Type 0 where
  pub slice : IsSlice s.store
  pub in_heap : IsInHeap s
  pub distinct : (renamed ≡ true) ⊎ Distinct itself (ids s)

pub kept : {A B P : Type 0} → (A → B) → P ⊎ A → P ⊎ B
kept f (inl e) = inl e
kept f (inr d) = inr (f d)

ids-Renews : (h h' : Heap) (ps : List ℕ) → Renews h h' → map (id_at h') ps ≡ map (id_at h) ps
ids-Renews h h' [] r = refl
ids-Renews h h' (p ∷ ps) r = ap₂ (λ k ks. k ∷ ks) (r.same p) (ids-Renews h h' ps r)

-- A heap that renews another keeps the invariant, with any futures.
pub Renews-IsGood :
    (b : Bool) (h h' : Heap) (st : Store) (fs gs : Futures)
    → Renews h h'
    → IsGood b (record { heap = h; store = st; futures = fs })
    → IsGood b (record { heap = h'; store = st; futures = gs })
Renews-IsGood b h h' st fs gs r g = record {
  slice = g.slice;
  in_heap = subst (λ n. All (λ p. p < n) (jobs st)) (sym r.size) g.in_heap;
  distinct = kept (subst (Distinct itself) (sym (ids-Renews h h' (jobs st) r))) g.distinct;
}

erase-All : (P : ℕ → Type 0) (h : Heap) (k : Bytes) (ps : List ℕ) → All P ps → All P (erase h k ps)
unfolding erase
erase-All P h k [] a = tt
erase-All P h k (p ∷ ps) a = elim (Bool-cases (has_id h k p)) [
  | inl e ↦ rw e a.1
  | inr e ↦ rw e (a.0, erase-All P h k ps a.1)
]

erase-has :
    (h : Heap) (k n : Bytes) (ps : List ℕ)
    → has itself n (map (id_at h) ps) ≡ false
    → has itself n (map (id_at h) (erase h k ps)) ≡ false
unfolding erase has
erase-has h k n [] e = refl
erase-has h k n (p ∷ ps) e = elim (Bool-cases (has_id h k p)) [
  | inl f ↦ rw f (ground (arith, e))
  | inr f ↦ rw f (ground (arith, e, erase-has h k n ps))
]

erase-Distinct :
    (h : Heap) (k : Bytes) (ps : List ℕ)
    → Distinct itself (map (id_at h) ps)
    → Distinct itself (map (id_at h) (erase h k ps))
unfolding erase
erase-Distinct h k [] d = tt
erase-Distinct h k (p ∷ ps) d = elim (Bool-cases (has_id h k p)) [
  | inl f ↦ rw f d.1
  | inr f ↦ rw f (erase-has h k (id_at h p) ps d.0, erase-Distinct h k ps d.1)
]

pub delete-IsGood :
    (b : Bool) (h : Heap) (k : Bytes) (st : Store) (fs : Futures)
    → IsGood b (record { heap = h; store = st; futures = fs })
    → IsGood b (record { heap = h; store = Store.delete h k st; futures = fs })
delete-IsGood b h k st fs g =
    let d = jobs-delete h k st g.slice in
    record {
      slice = d.1;
      in_heap =
          subst (All (λ p. p < length h)) (sym d.0)
            (erase-All (λ p. p < length h) h k (jobs st) g.in_heap);
      distinct =
          kept
            (λ e.
              subst (λ ps. Distinct itself (map (id_at h) ps)) (sym d.0)
                (erase-Distinct h k (jobs st) e))
            g.distinct;
    }
