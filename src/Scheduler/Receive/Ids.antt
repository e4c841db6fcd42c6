-- ===== src/Scheduler/Receive/Ids.antt =====
-- The identifiers of the store behind a configuration.
use flotta_device_worker_ng.Base.{
  ℕ, zero, suc, ◌<◌, ◌≡◌, refl, sym, ap, ap₂, ◌∙◌, subst, true, List, [], ◌∷◌, ◌++◌, Option, none,
  some, get_elem?, set, length, length-append, All, map, arith, Bytes, append_assoc, append-nil,
}
use flotta_device_worker_ng.Entity.State.{exited}
use flotta_device_worker_ng.Entity.Workload.{Workload}
use flotta_device_worker_ng.Entity.Job.{Job, BackOff, id, mark_for_deletion}
use flotta_device_worker_ng.Entity.Job.States.{set_target_state_lem}
use flotta_device_worker_ng.Scheduler.Util.{substract}
use flotta_device_worker_ng.Scheduler.Store.{Heap, jobs}
use flotta_device_worker_ng.Scheduler.Store.Laws.{jobs-add}
use flotta_device_worker_ng.Scheduler.Create.{create_job}
use flotta_device_worker_ng.Scheduler.Loop.{Jobs}
use flotta_device_worker_ng.Scheduler.Receive.{
  change, change_job, retire, retire_all, id_of, id_at, stored, create_all, receive,
}

abbrev pub ids : Jobs → List Bytes
ids s = map (id_at s.heap) (jobs s.store)

-- The pointers of the store point to jobs.
abbrev pub IsInHeap : Jobs → Type 0
IsInHeap s = All (λ p. p < length s.heap) (jobs s.store)

abbrev pub itself : Bytes → Bytes
itself k = k

pub retire-id : (now : ℕ) (j : Job) → id (retire now j) ≡ id j
unfolding retire mark_for_deletion
retire-id now j =
    ap (λ (w : Workload). w.id)
      (set_target_state_lem now exited (record j { marked_for_deletion = true })).3

pub length-set : (h : Heap) (p : ℕ) (j : Job) → length (set h p j) ≡ length h
length-set [] p j = refl
length-set (x ∷ h) zero j = refl
length-set (x ∷ h) (suc p) j = ap suc (length-set h p j)

pub set_id :
    (h : Heap) (p q : ℕ) (j k : Job)
    → get_elem? h p ≡ some j
    → id k ≡ id j
    → id_of (get_elem? (set h p k) q) ≡ id_of (get_elem? h q)
set_id [] p q j k e i = refl
set_id (x ∷ h) zero zero j k e i = i ∙ sym (ap id_of e)
set_id (x ∷ h) zero (suc q) j k e i = refl
set_id (x ∷ h) (suc p) zero j k e i = refl
set_id (x ∷ h) (suc p) (suc q) j k e i = set_id h p q j k e i

change_id :
    (now : ℕ) (p q : ℕ) (o : Option Job) (h : Heap)
    → get_elem? h p ≡ o
    → id_at (change_job (retire now) p o h) q ≡ id_at h q
change_id now p q none h e = refl
change_id now p q (some j) h e = set_id h p q j (retire now j) e (retire-id now j)

pub retire_all_id :
    (now : ℕ) (ps : List ℕ) (h : Heap) (q : ℕ) → id_at (retire_all now ps h) q ≡ id_at h q
unfolding retire_all
retire_all_id now [] h q = refl
retire_all_id now (p ∷ ps) h q =
    retire_all_id now ps (change (retire now) p h) q ∙ change_id now p q (get_elem? h p) h refl

pub map_ids :
    (f g : ℕ → Bytes) (n : ℕ) (ps : List ℕ)
    → All (λ p. p < n) ps
    → ((p : ℕ) → p < n → f p ≡ g p)
    → map f ps ≡ map g ps
map_ids f g n [] h e = refl
map_ids f g n (p ∷ ps) h e = ap₂ (λ x xs. x ∷ xs) (e p h.0) (map_ids f g n ps h.1 e)

map_append : (f : ℕ → Bytes) (ps qs : List ℕ) → map f (ps ++ qs) ≡ map f ps ++ map f qs
map_append f [] qs = refl
map_append f (p ∷ ps) qs = ap (λ xs. f p ∷ xs) (map_append f ps qs)

pub old_cell :
    (h : Heap) (j : Job) (p : ℕ) → p < length h → get_elem? (h ++ j ∷ []) p ≡ get_elem? h p
old_cell [] j p l = absurd (omega arith)
old_cell (x ∷ h) j zero l = refl
old_cell (x ∷ h) j (suc p) l = old_cell h j p (omega arith)

new_cell : (h : Heap) (j : Job) → get_elem? (h ++ j ∷ []) (length h) ≡ some j
new_cell [] j = refl
new_cell (x ∷ h) j = new_cell h j

All-append :
    (n m p : ℕ) (ps : List ℕ)
    → n < m
    → All (λ q. q < n) ps
    → p < m
    → All (λ q. q < m) (ps ++ p ∷ [])
All-append n m p [] l h k = (k, tt)
All-append n m p (q ∷ ps) l h k = let b = h.0 in (omega arith, All-append n m p ps l h.1 k)

stored-ids :
    (j : Job) (s : Jobs)
    → IsInHeap s
    → let s' = stored (some j) s in (ids s' ≡ ids s ++ id j ∷ []) × IsInHeap s'
stored-ids j s v =
    let h' = s.heap ++ j ∷ [] in
    let n = length s.heap in
    let added = (jobs-add n s.store).0 in
    let longer = length-append s.heap (j ∷ []) in
    (
      ap (map (id_at h')) added
          ∙ map_append (id_at h') (jobs s.store) (n ∷ [])
          ∙ ap₂ (λ xs x. xs ++ x ∷ [])
              (map_ids (id_at h') (id_at s.heap) n (jobs s.store) v
                λ p l. ap id_of (old_cell s.heap j p l))
              (ap id_of (new_cell s.heap j)),
      subst (All (λ p. p < length h')) (sym added)
          (All-append n (length h') n (jobs s.store) (omega arith) v (omega arith)),
    )

module _ (constant : ℕ → BackOff) (parse : Bytes → Option (ℕ → ℕ)) (now : ℕ) where
  abbrev pub made_one : Option Job → List Bytes → List Bytes
  made_one none ks = ks
  made_one (some j) ks = id j ∷ ks

  -- The identifiers of the jobs that can be made of some workloads.
  unfoldable pub made : List Workload → List Bytes
  made [] = []
  made (w ∷ ws) = made_one (create_job constant parse now w) (made ws)

  stored_made :
      (o : Option Job) (s : Jobs) (ks : List Bytes)
      → IsInHeap s
      → (ids (stored o s) ++ ks ≡ ids s ++ made_one o ks) × IsInHeap (stored o s)
  stored_made none s ks v = (refl, v)
  stored_made (some j) s ks v =
      let e = stored-ids j s v in
      (ap (λ xs. xs ++ ks) e.0 ∙ append_assoc (ids s) (id j ∷ []) ks, e.1)

  pub create_all-ids :
      (ws : List Workload) (s : Jobs)
      → IsInHeap s
      → let s' = create_all constant parse now ws s in (ids s' ≡ ids s ++ made ws) × IsInHeap s'
  unfolding create_all made
  create_all-ids [] s v = (sym (append-nil (ids s)), v)
  create_all-ids (w ∷ ws) s v =
      let o = create_job constant parse now w in
      let e = stored_made o s (made ws) v in
      let r = create_all-ids ws (stored o s) e.1 in (r.0 ∙ e.0, r.1)

  abbrev pub fresh : List Workload → Jobs → List Workload
  fresh ws s = substract (λ (w : Workload). w.id) (id_at s.heap) ws (jobs s.store)

  -- A configuration adds to the store, behind the jobs that it has and in their order, a job of each
  -- workload that is new and of which one can be made, and takes none out.
  pub ids-receive :
      (ws : List Workload) (s : Jobs)
      → IsInHeap s
      → ids (receive constant parse now (some ws) s) ≡ ids s ++ made (fresh ws s)
  unfolding receive
  ids-receive ws s v =
      let s' = create_all constant parse now (fresh ws s) s in
      let created = create_all-ids (fresh ws s) s v in
      let to_remove = substract (id_at s.heap) (λ (w : Workload). w.id) (jobs s.store) ws in
      map_ids (id_at (retire_all now to_remove s'.heap)) (id_at s'.heap) (length s'.heap)
        (jobs s'.store) created.1 (λ p l. retire_all_id now to_remove s'.heap p)
      ∙ created.0
