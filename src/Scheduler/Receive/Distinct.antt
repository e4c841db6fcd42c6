-- ===== src/Scheduler/Receive/Distinct.antt =====
-- No two jobs of the store have one identifier.
use flotta_device_worker_ng.Base.{
  ℕ, ◌≡◌, refl, sym, ap, ap₂, ◌∙◌, ◌≢◌, All, subst, true, false, ◌||◌, List, [], ◌∷◌, ◌++◌, Option,
  none, some, map, Bool-cases, Option-cases, inl, inr, arith, Bytes, str_eq, str_eq_iff,
}
use flotta_device_worker_ng.Entity.Workload.{Workload}
use flotta_device_worker_ng.Entity.Job.{Job, BackOff, id}
use flotta_device_worker_ng.Scheduler.Util.{is_some}
use flotta_device_worker_ng.Scheduler.Util.Laws.{has, Distinct, substract_lem}
use flotta_device_worker_ng.Scheduler.Store.{jobs}
use flotta_device_worker_ng.Scheduler.Create.{create_job, create_job_timed}
use flotta_device_worker_ng.Scheduler.Loop.{Jobs}
use flotta_device_worker_ng.Scheduler.Receive.{id_at, receive}
use flotta_device_worker_ng.Scheduler.Receive.Ids.{ids, IsInHeap, itself, made, fresh, ids-receive}

has-map :
    {A : Type 0} (f : A → Bytes) (k : Bytes) (xs : List A) → has itself k (map f xs) ≡ has f k xs
unfolding has
has-map f k [] = refl
has-map f k (x ∷ xs) = ap (λ b. str_eq (f x) k || b) (has-map f k xs)

has-append :
    (k : Bytes) (xs ys : List Bytes) → has itself k (xs ++ ys) ≡ has itself k xs || has itself k ys
unfolding has
has-append k [] ys = refl
has-append k (x ∷ xs) ys = ground (arith, has-append k xs ys)

absent :
    (x : Bytes) (xs ys : List Bytes)
    → has itself x xs ≡ false
    → (has itself x ys ≡ true → has itself x (x ∷ xs) ≡ false)
    → has itself x (xs ++ ys) ≡ false
unfolding has
absent x xs ys h apart = elim (Bool-cases (has itself x ys)) [
  | inl e ↦ ground (arith, apart e, str_eq_iff x x)
  | inr e ↦ ground (arith, has-append x xs ys, h, e)
]

later : (k x : Bytes) (xs : List Bytes) → has itself k (x ∷ xs) ≡ false → has itself k xs ≡ false
unfolding has
later k x xs h = ground (arith, h)

Distinct-append :
    (xs ys : List Bytes)
    → Distinct itself xs
    → Distinct itself ys
    → ((k : Bytes) → has itself k ys ≡ true → has itself k xs ≡ false)
    → Distinct itself (xs ++ ys)
Distinct-append [] ys a b apart = b
Distinct-append (x ∷ xs) ys a b apart =
    (absent x xs ys a.0 (apart x), Distinct-append xs ys a.1 b λ k e. later k x xs (apart k e))

some_of : (o : Option Job) → is_some o ≡ true → o ≢ none
some_of none h = ground (arith, h)
some_of (some j) h = cc

module _ (constant : ℕ → BackOff) (parse : Bytes → Option (ℕ → ℕ)) (now : ℕ) where
  made-has :
      (k : Bytes) (ws : List Workload)
      → has (λ (w : Workload). w.id) k ws ≡ false
      → has itself k (made constant parse now ws) ≡ false
  unfolding has made
  made-has k [] h = refl
  made-has k (w ∷ ws) h =
      let rest = made-has k ws (ground (arith, h)) in
      elim (Option-cases (create_job constant parse now w)) [
        | inl e ↦ rw e rest
        | inr (j, e) ↦
            let same : id j ≡ w.id =
              ap (λ (v : Workload). v.id) (create_job_timed constant parse now w j e).0 in
            rw e (ground (arith, h, same, rest))
      ]

  made-Distinct :
      (ws : List Workload)
      → Distinct (λ (w : Workload). w.id) ws
      → Distinct itself (made constant parse now ws)
  unfolding made
  made-Distinct [] h = tt
  made-Distinct (w ∷ ws) h = elim (Option-cases (create_job constant parse now w)) [
    | inl e ↦ rw e (made-Distinct ws h.1)
    | inr (j, e) ↦
        let same : id j ≡ w.id =
          ap (λ (v : Workload). v.id) (create_job_timed constant parse now w j e).0 in
        rw e (
          made-has (id j) ws (ap (λ k. has (λ (v : Workload). v.id) k ws) same ∙ h.0),
          made-Distinct ws h.1,
        )
  ]

  new_id :
      (ws : List Workload) (s : Jobs) (k : Bytes)
      → has itself k (made constant parse now (fresh constant parse now ws s)) ≡ true
      → has itself k (ids s) ≡ false
  new_id ws s k e =
      let news = (substract_lem (λ (w : Workload). w.id) (id_at s.heap) ws (jobs s.store)).0 k in
      elim (Bool-cases (has (λ (w : Workload). w.id) k (fresh constant parse now ws s))) [
        | inl found ↦ has-map (id_at s.heap) k (jobs s.store) ∙ ground (arith, news, found)
        | inr none_found ↦ cc (e, made-has k (fresh constant parse now ws s) none_found)
      ]

  -- Where no two jobs of the store have one identifier, a configuration adds none that would.
  pub receive-Distinct :
      (ws : List Workload) (s : Jobs)
      → IsInHeap s
      → Distinct itself (ids s)
      → Distinct itself (ids (receive constant parse now (some ws) s))
  receive-Distinct ws s v d =
      let news = substract_lem (λ (w : Workload). w.id) (id_at s.heap) ws (jobs s.store) in
      subst (Distinct itself) (sym (ids-receive constant parse now ws s v)) (
        Distinct-append (ids s) (made constant parse now (fresh constant parse now ws s)) d
          (made-Distinct (fresh constant parse now ws s) news.1) (λ k e. new_id ws s k e))

  made-All :
      (k : Bytes) (ws : List Workload)
      → All (λ w. is_some (create_job constant parse now w) ≡ true) ws
      → has itself k (made constant parse now ws) ≡ has (λ (w : Workload). w.id) k ws
  unfolding has made
  made-All k [] h = refl
  made-All k (w ∷ ws) h = elim (Option-cases (create_job constant parse now w)) [
    | inl e ↦ absurd (some_of (create_job constant parse now w) h.0 e)
    | inr (j, e) ↦
        let same : id j ≡ w.id =
          ap (λ (v : Workload). v.id) (create_job_timed constant parse now w j e).0 in
        rw e (ap₂ (λ x b. str_eq x k || b) same (made-All k ws h.1))
  ]

  -- If a job can be made of each new workload, the store has a job of an identifier behind a
  -- configuration exactly when it had one or a workload of the configuration has the identifier.
  pub receive-has :
      (ws : List Workload) (s : Jobs) (k : Bytes)
      → IsInHeap s
      → All (λ w. is_some (create_job constant parse now w) ≡ true) (fresh constant parse now ws s)
      → has itself k (ids (receive constant parse now (some ws) s))
        ≡ has itself k (ids s) || has (λ (w : Workload). w.id) k ws
  receive-has ws s k v h =
      let news = (substract_lem (λ (w : Workload). w.id) (id_at s.heap) ws (jobs s.store)).0 k in
      let added = made-All k (fresh constant parse now ws s) h in
      let held = has-map (id_at s.heap) k (jobs s.store) in
      ap (has itself k) (ids-receive constant parse now ws s v)
      ∙ has-append k (ids s) (made constant parse now (fresh constant parse now ws s))
      ∙ ground (arith, news, added, held)
