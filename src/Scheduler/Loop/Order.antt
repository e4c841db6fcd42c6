-- ===== src/Scheduler/Loop/Order.antt =====
-- Which jobs the loop over the jobs visits.
use flotta_device_worker_ng.Base.{
  ℕ, zero, suc, ◌+◌, ◌≡◌, refl, sym, subst, ap, ap₂, ◌∙◌, true, List, [], ◌∷◌, ◌++◌, Option, some,
  length, length-append, get_elem?, set, take, drop, str_eq_refl, arith,
}
use flotta_device_worker_ng.Entity.State.{JobState}
use flotta_device_worker_ng.Entity.Job.{Job, id}
use flotta_device_worker_ng.Scheduler.Store
use flotta_device_worker_ng.Scheduler.Store.{Heap, Store, jobs, index, cut, remove_at}
use flotta_device_worker_ng.Scheduler.Visit.{visit}
use flotta_device_worker_ng.Scheduler.Loop.{Jobs, visit_at, sync_from, sync, listed}

get_elem?-set :
    {A : Type 0} (xs : List A) (i : ℕ) (x y : A)
    → get_elem? xs i ≡ some x
    → get_elem? (set xs i y) i ≡ some y
get_elem?-set [] i x y h = cc
get_elem?-set (z ∷ xs) zero x y h = refl
get_elem?-set (z ∷ xs) (suc i) x y h = get_elem?-set xs i x y h

take-drop-suc :
    (xs : List ℕ) (n i : ℕ)
    → listed (get_elem? xs i) (take n (drop (suc i) xs)) ≡ take (suc n) (drop i xs)
take-drop-suc [] zero zero = refl
take-drop-suc [] (suc n) zero = refl
take-drop-suc [] zero (suc i) = refl
take-drop-suc [] (suc n) (suc i) = refl
take-drop-suc (x ∷ xs) n zero = refl
take-drop-suc (x ∷ xs) n (suc i) = take-drop-suc xs n i

take-all : (xs : List ℕ) → take (length xs) xs ≡ xs
take-all [] = refl
take-all (x ∷ xs) = ap (λ t. x ∷ t) (take-all xs)

drop-length : (xs ys : List ℕ) → drop (length xs) (xs ++ ys) ≡ ys
drop-length [] ys = refl
drop-length (x ∷ xs) ys = drop-length xs ys

take-length : (n : ℕ) (xs : List ℕ) → n ≡ length xs → take n xs ≡ xs
take-length n xs e = ap (λ k. take k xs) e ∙ take-all xs

drop_last :
    (q last : ℕ) (mid : List ℕ)
    → drop (length (mid ++ last ∷ [])) (q ∷ (mid ++ last ∷ [])) ≡ last ∷ []
drop_last q last [] = refl
drop_last q last (m ∷ mid) = drop_last m last mid

-- What the loop reads behind the first cell once the first cell was cut out.
cells_moved :
    (p q last : ℕ) (mid : List ℕ)
    → let ps = q ∷ (mid ++ last ∷ []) in
      take (length ps) (drop 1 (cut 0 (record { array = p ∷ ps; len = suc (length ps) })).array)
      ≡ (mid ++ last ∷ []) ++ last ∷ []
cells_moved p q last mid =
    let ps = q ∷ (mid ++ last ∷ []) in
    let k = length-append (mid ++ last ∷ []) (last ∷ []) in
    ap₂ (λ xs ys. take (length ps) (drop 1 (xs ++ ys))) (take-all ps)
      (ap (λ i. drop i (p ∷ ps)) {y = length ps} (omega arith) ∙ drop_last q last mid)
    ∙ take-length (length ps) ((mid ++ last ∷ []) ++ last ∷ []) (omega arith)

module _ (time : ℕ → ℕ) (answer : ℕ → Option JobState) where
  -- No visit of these rounds removes a job.
  abbrev pub Quiet : ℕ → ℕ → Jobs → Type 0
  Quiet zero i s = Unit {0}
  Quiet (suc rounds) i s =
      let s' = visit_at (time i) (answer i) (get_elem? s.store.array i) s in
      (s'.store ≡ s.store) × Quiet rounds (i + 1) s'

  Quiet-order :
      (rounds i : ℕ) (s : Jobs)
      → Quiet rounds i s
      → (sync_from time answer rounds i s).1 ≡ take rounds (drop i s.store.array)
  unfolding sync_from
  Quiet-order zero i s h = refl
  Quiet-order (suc rounds) i s h =
      let s' = visit_at (time i) (answer i) (get_elem? s.store.array i) s in
      let ih = Quiet-order rounds (i + 1) s' h.1 in
      ap (listed (get_elem? s.store.array i)) (
        ih
        ∙ ap₂ (λ n xs. take rounds (drop n xs)) {y = suc i} (omega arith)
            (ap (λ (t : Store). t.array) h.0))
      ∙ take-drop-suc s.store.array rounds i

  -- Where no visit removes a job, each job of the store is visited once, in its order.
  pub sync-Quiet : (s : Jobs) → Quiet s.store.len 0 s → (sync time answer s).1 ≡ jobs s.store
  unfolding sync
  sync-Quiet s h = Quiet-order s.store.len 0 s h

  removes_first :
      (s : Jobs) (p : ℕ) (ps : List ℕ) (j : Job)
      → s.store ≡ record { array = p ∷ ps; len = suc (length ps) }
      → get_elem? s.heap p ≡ some j
      → (visit (time 0) (answer 0) j s.futures).removed ≡ true
      → (visit_at (time 0) (answer 0) (some p) s).store
        ≡ cut 0 (record { array = p ∷ ps; len = suc (length ps) })
  unfolding Store.delete index
  removes_first s p ps j e g r =
      rw (g, r, e)
        (ground (
          arith,
          get_elem?-set s.heap p j (visit (time 0) (answer 0) j s.futures).job g,
          str_eq_refl (id (visit (time 0) (answer 0) j s.futures).job),
        ))

  sync_first :
      (rounds : ℕ) (s : Jobs) (p : ℕ)
      → get_elem? s.store.array 0 ≡ some p
      → (sync_from time answer (suc rounds) 0 s).1
        ≡ p ∷ (sync_from time answer rounds 1 (visit_at (time 0) (answer 0) (some p) s)).1
  unfolding sync_from
  sync_first rounds s p g =
      ap (λ c. listed c (sync_from time answer rounds 1 (visit_at (time 0) (answer 0) c s)).1) g

  -- Where the visit of the first of three jobs or more removes it, and no later visit of the loop
  -- removes one, the second job is not visited, and the last one is visited twice: the loop reads the
  -- cells that the removal has moved.
  pub sync_skips :
      (s : Jobs) (p q last : ℕ) (mid : List ℕ) (j : Job)
      → let cells = p ∷ (q ∷ (mid ++ last ∷ [])) in
        s.store ≡ record { array = cells; len = length cells }
        → get_elem? s.heap p ≡ some j
        → (visit (time 0) (answer 0) j s.futures).removed ≡ true
        → Quiet (suc (length (mid ++ last ∷ []))) 1 (visit_at (time 0) (answer 0) (some p) s)
        → (sync time answer s).1 ≡ p ∷ ((mid ++ last ∷ []) ++ last ∷ [])
  unfolding sync
  sync_skips s p q last mid j e g r h =
      let ps = q ∷ (mid ++ last ∷ []) in
      let moved = removes_first s p ps j e g r in
      let s' = visit_at (time 0) (answer 0) (some p) s in
      let rest =
        Quiet-order (length ps) 1 s' h
        ∙ ap (λ (t : Store). take (length ps) (drop 1 t.array)) moved
        ∙ cells_moved p q last mid in
      subst
        (λ (t : Store). (sync_from time answer t.len 0 s).1 ≡ p ∷ ((mid ++ last ∷ []) ++ last ∷ []))
        (sym e)
        (sync_first (length ps) s p (ap (λ (t : Store). get_elem? t.array 0) e)
          ∙ ap (λ xs. p ∷ xs) rest)
