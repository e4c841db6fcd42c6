-- ===== src/Scheduler/Run/Kept.antt =====
-- Every step of the scheduler's loop keeps the invariant.
use flotta_device_worker_ng.Base.{
  ℕ, zero, suc, ◌+◌, ◌<◌, ◌≡◌, refl, inl, inr, sym, ap, ◌∙◌, subst, Bool, true, false, List, [],
  ◌∷◌, Option, none, some, if◌then◌else◌, get_elem?, set, length, All, arith, Bytes, lookup,
}
use flotta_device_worker_ng.Entity.State.{JobState}
use flotta_device_worker_ng.Entity.Future.{Future, poll}
use flotta_device_worker_ng.Entity.Workload.{Workload}
use flotta_device_worker_ng.Entity.Job.{Job, BackOff, id, set_current_state}
use flotta_device_worker_ng.Entity.Job.States.{set_current_state-Sees}
use flotta_device_worker_ng.Scheduler.Store
use flotta_device_worker_ng.Scheduler.Store.{Heap, Store, jobs}
use flotta_device_worker_ng.Scheduler.Store.Laws.{IsSlice, jobs-add}
use flotta_device_worker_ng.Scheduler.Create.{create_job}
use flotta_device_worker_ng.Scheduler.Visit.{
  Report, Futures, Visit, visit, visit_with, polled, fresh, refreshed, reconcile,
}
use flotta_device_worker_ng.Scheduler.Loop.{Jobs, after, visit_job, visit_at, sync_from, sync}
use flotta_device_worker_ng.Scheduler.Receive.{change_job, stored, create_all, retire_all, receive}
use flotta_device_worker_ng.Scheduler.Receive.Ids
use flotta_device_worker_ng.Scheduler.Receive.Ids.{
  ids, IsInHeap, itself, create_all-ids, length-set,
}
use flotta_device_worker_ng.Scheduler.Receive.Distinct.{receive-Distinct}
use flotta_device_worker_ng.Scheduler.Run.{
  on_resources, Scheduler, new_scheduler, on_input, on_results, on_execution, on_evaluation,
  on_heartbeat, evaluate_all, with_identity, on_rename, Step, Run,
}
use flotta_device_worker_ng.Scheduler.Resources.Branch.{sweep}
use flotta_device_worker_ng.Scheduler.Run.Swept.{sweep-Renews}
use flotta_device_worker_ng.Scheduler.Run.Invariant.{
  IsGood, Renews-IsGood, delete-IsGood, set-Renews, evaluate_all-Renews, retire_all-Renews, kept,
}

set_current-id : (now : ℕ) (s : JobState) (j : Job) → id (set_current_state now s j) ≡ id j
set_current-id now s j = ap (λ (w : Workload). w.id) (set_current_state-Sees now s j).workload

reconcile-id : (now : ℕ) (j : Job) (fs : Futures) → id (reconcile now j fs).job ≡ id j
unfolding reconcile
reconcile-id now j fs = ground arith

refreshed-id : (now : ℕ) (j : Job) (fs : Futures) → id (refreshed now j fs).job ≡ id j
unfolding refreshed
refreshed-id now j fs = ground (arith, reconcile-id now j fs)

polled-id :
    (now : ℕ) (j : Job) (fs : Futures) (o : Option Report) → id (polled now j fs o).job ≡ id j
polled-id now j fs none = refl
polled-id now j fs (some r) = ground (arith, set_current-id now r.value j)

fresh-id :
    (now : ℕ) (o : Option JobState) (j : Job) (fs : Futures) → id (fresh now o j fs).job ≡ id j
fresh-id now none j fs = refl
fresh-id now (some s) j fs =
    refreshed-id now (set_current_state now s j) fs ∙ set_current-id now s j

visit_with-id :
    (now : ℕ) (o : Option JobState) (j : Job) (fs : Futures) (f : Option (Future Report))
    → id (visit_with now o j fs f).job ≡ id j
visit_with-id now o j fs none = fresh-id now o j fs
visit_with-id now o j fs (some f) = polled-id now j fs (poll f)

visit-id :
    (now : ℕ) (o : Option JobState) (j : Job) (fs : Futures) → id (visit now o j fs).job ≡ id j
unfolding visit
visit-id now o j fs = visit_with-id now o j fs (lookup (id j) fs)

removes-IsGood :
    (b c : Bool) (h : Heap) (k : Bytes) (st : Store) (fs : Futures)
    → IsGood b (record { heap = h; store = st; futures = fs })
    → IsGood b (record { heap = h; store = if c then Store.delete h k st else st; futures = fs })
removes-IsGood b true h k st fs g = delete-IsGood b h k st fs g
removes-IsGood b false h k st fs g = g

after-IsGood :
    (b : Bool) (p : ℕ) (j : Job) (v : Visit) (s : Jobs)
    → get_elem? s.heap p ≡ some j
    → id v.job ≡ id j
    → IsGood b s
    → IsGood b (after p v s)
after-IsGood b p j v s e i g =
    let h' = set s.heap p v.job in
    removes-IsGood b v.removed h' (id v.job) s.store v.futures
      (Renews-IsGood b s.heap h' s.store s.futures v.futures (set-Renews s.heap p j v.job e i) g)

visit_job-IsGood :
    (b : Bool) (now : ℕ) (o : Option JobState) (p : ℕ) (c : Option Job) (s : Jobs)
    → get_elem? s.heap p ≡ c
    → IsGood b s
    → IsGood b (visit_job now o p c s)
visit_job-IsGood b now o p none s e g = g
visit_job-IsGood b now o p (some j) s e g =
    after-IsGood b p j (visit now o j s.futures) s e (visit-id now o j s.futures) g

visit_at-IsGood :
    (b : Bool) (now : ℕ) (o : Option JobState) (c : Option ℕ) (s : Jobs)
    → IsGood b s
    → IsGood b (visit_at now o c s)
visit_at-IsGood b now o none s g = g
visit_at-IsGood b now o (some p) s g = visit_job-IsGood b now o p (get_elem? s.heap p) s refl g

sync_from-IsGood :
    (b : Bool) (time : ℕ → ℕ) (answer : ℕ → Option JobState) (rounds i : ℕ) (s : Jobs)
    → IsGood b s
    → IsGood b (sync_from time answer rounds i s).0
unfolding sync_from
sync_from-IsGood b time answer zero i s g = g
sync_from-IsGood b time answer (suc rounds) i s g =
    let cell = get_elem? s.store.array i in
    sync_from-IsGood b time answer rounds (i + 1) (visit_at (time i) (answer i) cell s)
      (visit_at-IsGood b (time i) (answer i) cell s g)

module _ (constant : ℕ → BackOff) (parse : Bytes → Option (ℕ → ℕ)) where
  stored-IsSlice : (o : Option Job) (s : Jobs) → IsSlice s.store → IsSlice (stored o s).store
  stored-IsSlice none s v = v
  stored-IsSlice (some j) s v = (jobs-add (length s.heap) s.store).1

  create_all-IsSlice :
      (now : ℕ) (ws : List Workload) (s : Jobs)
      → IsSlice s.store
      → IsSlice (create_all constant parse now ws s).store
  unfolding create_all
  create_all-IsSlice now [] s v = v
  create_all-IsSlice now (w ∷ ws) s v =
      let o = create_job constant parse now w in
      create_all-IsSlice now ws (stored o s) (stored-IsSlice o s v)

  receive-IsGood :
      (b : Bool) (now : ℕ) (opt : Option (List Workload)) (s : Jobs)
      → IsGood b s
      → IsGood b (receive constant parse now opt s)
  unfolding receive
  receive-IsGood b now none s g =
      Renews-IsGood b s.heap (retire_all now (jobs s.store) s.heap) s.store s.futures s.futures
        (retire_all-Renews now (jobs s.store) s.heap) g
  receive-IsGood b now (some ws) s g =
      let news = Ids.fresh constant parse now ws s in
      let s' = create_all constant parse now news s in
      let r = receive constant parse now (some ws) s in
      record {
        slice = create_all-IsSlice now news s g.slice;
        in_heap =
            subst (λ n. All (λ p. p < n) (jobs s'.store))
              (sym (retire_all-Renews now _ s'.heap).size)
              (create_all-ids constant parse now news s g.in_heap).1;
        distinct = kept (receive-Distinct constant parse now ws s g.in_heap) g.distinct;
      }

  heartbeat_keeps :
      (b c : Bool) (s : Scheduler)
      → IsGood b s.jobs
      → IsGood b
          (if c then record s { blocked = true } else record s { execution_sync = true }).jobs
  heartbeat_keeps b true s g = g
  heartbeat_keeps b false s g = g

  Step-IsGood :
      (b : Bool) {s t : Scheduler} → Step constant parse s t → IsGood b s.jobs → IsGood b t.jobs
  unfolding on_input on_results on_execution on_resources on_evaluation on_heartbeat sync
  Step-IsGood b (Step.input now opt s l) g = receive-IsGood b now opt s.jobs g
  Step-IsGood b (Step.results rs true s l) g = g
  Step-IsGood b (Step.results rs false s l) g = g
  Step-IsGood b (Step.execution time answer s l e) g =
      sync_from-IsGood b time answer s.jobs.store.len 0 s.jobs g
  Step-IsGood b (Step.resources answer s l e) g =
      Renews-IsGood b s.jobs.heap
        (sweep answer 0 (jobs s.jobs.store) s.jobs.heap s.resource_futures).0 s.jobs.store
        s.jobs.futures s.jobs.futures
        (sweep-Renews answer 0 (jobs s.jobs.store) s.jobs.heap s.resource_futures) g
  Step-IsGood b (Step.evaluation now s l e) g =
      Renews-IsGood b s.jobs.heap
        (evaluate_all now s.profile_evaluation_results (jobs s.jobs.store) s.jobs.heap) s.jobs.store
        s.jobs.futures s.jobs.futures
        (evaluate_all-Renews now s.profile_evaluation_results (jobs s.jobs.store) s.jobs.heap) g
  Step-IsGood b (Step.heartbeat s l) g = heartbeat_keeps b s.execution_sync s g

  -- Whether a workload gets another identifier in a run.
  abbrev pub renames : {s t : Scheduler} → Run constant parse s t → Bool
  renames (Run.stop s) = false
  renames (Run.next st r) = renames r
  renames (Run.rename p k hash s r) = true

  renamed-IsGood :
      (b : Bool) (p : ℕ) (k hash : Bytes) (o : Option Job) (s : Jobs)
      → IsGood b s
      → IsGood true (record s { heap = change_job (with_identity k hash) p o s.heap })
  renamed-IsGood b p k hash none s g = record {
    slice = g.slice;
    in_heap = g.in_heap;
    distinct = inl refl;
  }
  renamed-IsGood b p k hash (some j) s g = record {
    slice = g.slice;
    in_heap =
        subst (λ n. All (λ p. p < n) (jobs s.store))
          (sym (length-set s.heap p (with_identity k hash j))) g.in_heap;
    distinct = inl refl;
  }

  run_renamed : {s t : Scheduler} → Run constant parse s t → IsGood true s.jobs → IsGood true t.jobs
  unfolding on_rename
  run_renamed (Run.stop s) g = g
  run_renamed (Run.next st r) g = run_renamed r (Step-IsGood true st g)
  run_renamed (Run.rename p k hash s r) g =
      run_renamed r (renamed-IsGood true p k hash (get_elem? s.jobs.heap p) s.jobs g)

  run_keeps :
      {s t : Scheduler} (r : Run constant parse s t)
      → IsGood false s.jobs
      → IsGood (renames r) t.jobs
  unfolding on_rename
  run_keeps (Run.stop s) g = g
  run_keeps (Run.next st r) g = run_keeps r (Step-IsGood false st g)
  run_keeps (Run.rename p k hash s r) g =
      run_renamed r (renamed-IsGood false p k hash (get_elem? s.jobs.heap p) s.jobs g)

  -- In each state that a run of a new scheduler's loop reaches, the pointers of the store point to jobs
  -- and its slice lies within its array, also where workloads get other identifiers while it runs. If
  -- none does, no two jobs of the store have one identifier.
  pub run-IsGood :
      {t : Scheduler} (r : Run constant parse new_scheduler t) → IsGood (renames r) t.jobs
  run-IsGood r = run_keeps r (record { slice = omega arith; in_heap = tt; distinct = inr tt })
