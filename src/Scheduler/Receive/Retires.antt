-- ===== src/Scheduler/Receive/Retires.antt =====
-- Which jobs a configuration retires.
use mathlib.Core.List.{Memᴰ}
use flotta_device_worker_ng.Base.{
  ℕ, zero, suc, ◌<◌, ◌≡◌, ◌≢◌, refl, sym, ap, ◌∙◌, subst, length, length-append, true, false, List,
  [], ◌∷◌, Option, none, some, get_elem?, set, All, arith, Bytes,
}
use flotta_device_worker_ng.Entity.State.{exited}
use flotta_device_worker_ng.Entity.Workload.{Workload}
use flotta_device_worker_ng.Entity.Job.{Job, BackOff, mark_for_deletion}
use flotta_device_worker_ng.Entity.Job.States.{set_target_state_lem}
use flotta_device_worker_ng.Scheduler.Util.{substract}
use flotta_device_worker_ng.Scheduler.Util.Laws.{has, Distinct, substract_lem, substract-All}
use flotta_device_worker_ng.Scheduler.Util.Members.{
  All-has, All-Mem, All-members, has-Mem, one-Mem, Mem-append, All-mono,
}
use flotta_device_worker_ng.Scheduler.Store.{Heap, jobs}
use flotta_device_worker_ng.Scheduler.Loop.{Jobs}
use flotta_device_worker_ng.Scheduler.Receive.{
  change, change_job, retire, retire_all, id_of, id_at, stored, create_all, receive,
}
use flotta_device_worker_ng.Scheduler.Receive.Ids.{
  IsInHeap, fresh, length-set, old_cell, retire_all_id,
}
use flotta_device_worker_ng.Scheduler.Create.{create_job}
use flotta_device_worker_ng.Scheduler.Store.Laws.{jobs-add}

-- There is a job, which is marked for deletion and is to exit.
abbrev pub IsRetired : Option Job → Type 0
IsRetired none = ⊥
IsRetired (some j) = (j.marked_for_deletion ≡ true) × (j.target_state ≡ exited)

retire-IsRetired : (now : ℕ) (j : Job) → IsRetired (some (retire now j))
unfolding retire mark_for_deletion
retire-IsRetired now j =
    let e = set_target_state_lem now exited (record j { marked_for_deletion = true }) in (e.2, e.0)

-- A cell behind a change of another is what it was.
set_cell :
    (h : Heap) (p q : ℕ) (j : Job)
    → IsRetired (some j)
    → IsRetired (get_elem? h q)
    → IsRetired (get_elem? (set h p j) q)
set_cell [] p q j r k = k
set_cell (x ∷ h) zero zero j r k = r
set_cell (x ∷ h) zero (suc q) j r k = k
set_cell (x ∷ h) (suc p) zero j r k = k
set_cell (x ∷ h) (suc p) (suc q) j r k = set_cell h p q j r k

set_same :
    (h : Heap) (p : ℕ) (j : Job)
    → p < length h
    → IsRetired (some j)
    → IsRetired (get_elem? (set h p j) p)
set_same [] p j l r = absurd (omega (arith, l))
set_same (x ∷ h) zero j l r = r
set_same (x ∷ h) (suc p) j l r = set_same h p j (omega (arith, l)) r

no_cell : (h : Heap) (p : ℕ) → p < length h → get_elem? h p ≢ none
no_cell [] p l e = omega (arith, l)
no_cell (x ∷ h) zero l e = cc e
no_cell (x ∷ h) (suc p) l e = no_cell h p (omega (arith, l)) e

length-change :
    (now : ℕ) (p : ℕ) (o : Option Job) (h : Heap)
    → length (change_job (retire now) p o h) ≡ length h
length-change now p none h = refl
length-change now p (some j) h = length-set h p (retire now j)

change_keeps :
    (now : ℕ) (p q : ℕ) (o : Option Job) (h : Heap)
    → IsRetired (get_elem? h q)
    → IsRetired (get_elem? (change_job (retire now) p o h) q)
change_keeps now p q none h k = k
change_keeps now p q (some j) h k = set_cell h p q (retire now j) (retire-IsRetired now j) k

change_same :
    (now : ℕ) (p : ℕ) (o : Option Job) (h : Heap)
    → p < length h
    → get_elem? h p ≡ o
    → IsRetired (get_elem? (change_job (retire now) p o h) p)
change_same now p none h l e = absurd (no_cell h p l e)
change_same now p (some j) h l e = set_same h p (retire now j) l (retire-IsRetired now j)

retire_all_keeps :
    (now : ℕ) (ps : List ℕ) (h : Heap) (q : ℕ)
    → IsRetired (get_elem? h q)
    → IsRetired (get_elem? (retire_all now ps h) q)
unfolding retire_all
retire_all_keeps now [] h q k = k
retire_all_keeps now (p ∷ ps) h q k =
    retire_all_keeps now ps (change (retire now) p h) q (change_keeps now p q (get_elem? h p) h k)

retire_all-IsRetired :
    (now : ℕ) (n : ℕ) (ps : List ℕ) (h : Heap)
    → n ≡ length h
    → All (λ p. p < n) ps
    → All (λ p. IsRetired (get_elem? (retire_all now ps h) p)) ps
unfolding retire_all
retire_all-IsRetired now n [] h e a = tt
retire_all-IsRetired now n (p ∷ ps) h e a =
    let l : p < length h = subst (λ m. p < m) e a.0 in
    (
      retire_all_keeps now ps (change (retire now) p h) p
          (change_same now p (get_elem? h p) h l refl),
      retire_all-IsRetired now n ps (change (retire now) p h)
          (e ∙ sym (length-change now p (get_elem? h p) h)) a.1,
    )

module _ (constant : ℕ → BackOff) (parse : Bytes → Option (ℕ → ℕ)) (now : ℕ) where
  stored-Mem :
      (o : Option Job) (s : Jobs) (p : ℕ) → Memᴰ p (jobs s.store) → Memᴰ p (jobs (stored o s).store)
  stored-Mem none s p m = m
  stored-Mem (some j) s p m =
      subst (Memᴰ p) (sym (jobs-add (length s.heap) s.store).0) (Mem-append p (jobs s.store) _ m)

  create_all-Mem :
      (ws : List Workload) (s : Jobs) (p : ℕ)
      → Memᴰ p (jobs s.store)
      → Memᴰ p (jobs (create_all constant parse now ws s).store)
  unfolding create_all
  create_all-Mem [] s p m = m
  create_all-Mem (w ∷ ws) s p m =
      let o = create_job constant parse now w in
      create_all-Mem ws (stored o s) p (stored-Mem o s p m)

  stored-id :
      (o : Option Job) (s : Jobs) (p : ℕ)
      → p < length s.heap
      → (id_at (stored o s).heap p ≡ id_at s.heap p) × (p < length (stored o s).heap)
  stored-id none s p l = (refl, l)
  stored-id (some j) s p l =
      (ap id_of (old_cell s.heap j p l), omega (arith, l, length-append s.heap (j ∷ [])))

  create_all-id :
      (ws : List Workload) (s : Jobs) (p : ℕ)
      → p < length s.heap
      → let s' = create_all constant parse now ws s in
        (id_at s'.heap p ≡ id_at s.heap p) × (p < length s'.heap)
  unfolding create_all
  create_all-id [] s p l = (refl, l)
  create_all-id (w ∷ ws) s p l =
      let o = create_job constant parse now w in
      let (e, l') = stored-id o s p l in
      let (f, k) = create_all-id ws (stored o s) p l' in (f ∙ e, k)

  -- A job of the store that has no workload in a configuration with its identifier is marked for
  -- deletion and is to exit behind the configuration, in the store and with its identifier, where no
  -- two jobs of the store have one.
  pub receive-IsRetired :
      (ws : List Workload) (s : Jobs) (p : ℕ)
      → IsInHeap s
      → Distinct (id_at s.heap) (jobs s.store)
      → Memᴰ p (jobs s.store)
      → has (λ (w : Workload). w.id) (id_at s.heap p) ws ≡ false
      → let s' = receive constant parse now (some ws) s in
        Memᴰ p (jobs s'.store)
        × (id_at s'.heap p ≡ id_at s.heap p)
        × IsRetired (get_elem? s'.heap p)
  unfolding receive
  receive-IsRetired ws s p v d m dropped =
      let ps = jobs s.store in
      let to_remove = substract (id_at s.heap) (λ (w : Workload). w.id) ps ws in
      let news = fresh constant parse now ws s in
      let s' = create_all constant parse now news s in
      let l : p < length s.heap = All-Mem (λ q. q < length s.heap) p ps v m in
      let within =
        substract-All (id_at s.heap) (λ (w : Workload). w.id) (λ q. Memᴰ q ps) ps ws
          (All-members ps) in
      let valid =
        substract-All (id_at s.heap) (λ (w : Workload). w.id) (λ q. q < length s'.heap) ps ws
          (All-mono (λ q. q < length s.heap) (λ q. q < length s'.heap) ps
            (λ q k. (create_all-id news s q k).1) v) in
      let gone = (substract_lem (id_at s.heap) (λ (w : Workload). w.id) ps ws).0 (id_at s.heap p) in
      let held = has-Mem (id_at s.heap) p ps m in
      let (q, same, retired, member) =
        All-has (id_at s.heap) (λ q. IsRetired (get_elem? (retire_all now to_remove s'.heap) q))
          (λ q. Memᴰ q ps) (id_at s.heap p) to_remove
          (retire_all-IsRetired now (length s'.heap) to_remove s'.heap refl valid) within
          (ground (arith, gone, held, dropped)) in
      let one : q ≡ p = one-Mem (id_at s.heap) ps q p d member m same in
      (
        create_all-Mem news s p m,
        retire_all_id now to_remove s'.heap p ∙ (create_all-id news s p l).0,
        subst (λ n. IsRetired (get_elem? (retire_all now to_remove s'.heap) n)) one retired,
      )
