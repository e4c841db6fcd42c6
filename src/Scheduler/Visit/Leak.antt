-- ===== src/Scheduler/Visit/Leak.antt =====
-- A job that was stopped, and then taken out of the configuration, stays in the store.
use flotta_device_worker_ng.Base.{
  ℕ, ◌≡◌, refl, ◌⊎◌, inl, inr, List, [], ◌∷◌, Option, none, some, if◌then◌else◌, lookup, All, arith,
}
use flotta_device_worker_ng.Entity.State.{JobState, exited, unknown, inactive}
use flotta_device_worker_ng.Entity.Job.{Job, id, run_hooks, set_current_state, store_current}
use flotta_device_worker_ng.Entity.Job.Restart.{job_hooks}
use flotta_device_worker_ng.Scheduler.Visit.{
  Futures, Visit, seen, visit, refreshed, reconcile, should_reconcile,
}

-- The visits of a job at one heartbeat after another, each with its time and the executor's answer,
-- until one removes it.
unfoldable pub visits : List (ℕ × Option JobState) → Job → Futures → Visit
visits [] j fs = seen j fs
visits ((now, answer) ∷ beats) j fs =
    let v = visit now answer j fs in
    let rest = visits beats v.job v.futures in if v.removed then v else rest

-- The executor does not find the job, or fails.
abbrev pub IsMissed : ℕ × Option JobState → Type 0
IsMissed beat = (beat.1 ≡ none) ⊎ (beat.1 ≡ some unknown)

still_inactive :
    (now : ℕ) (j : Job)
    → j.hooks ≡ job_hooks
    → j.current_state ≡ inactive
    → set_current_state now unknown j ≡ j
unfolding set_current_state store_current run_hooks
still_inactive now j h c = ground arith

visit_missed :
    (now : ℕ) (answer : Option JobState) (j : Job) (fs : Futures)
    → j.hooks ≡ job_hooks
    → j.current_state ≡ inactive
    → j.target_state ≡ exited
    → lookup (id j) fs ≡ none
    → IsMissed (now, answer)
    → visit now answer j fs ≡ seen j fs
unfolding visit refreshed reconcile should_reconcile
visit_missed now answer j fs h c t e (inl m) = rw (e, m) refl
visit_missed now answer j fs h c t e (inr m) = rw (e, m, still_inactive now j h c) (ground arith)

-- An inactive job of `createJob` with target state exited, as a job gets it with its mark for deletion,
-- is neither removed, marked or not, nor reconciled nor changed, at any number of heartbeats, if no
-- reconciliation of it is pending and the executor fails or does not find it.
pub inactive_leaks :
    (beats : List (ℕ × Option JobState)) (j : Job) (fs : Futures)
    → j.hooks ≡ job_hooks
    → j.current_state ≡ inactive
    → j.target_state ≡ exited
    → lookup (id j) fs ≡ none
    → All IsMissed beats
    → visits beats j fs ≡ seen j fs
unfolding visits
inactive_leaks [] j fs h c t e m = refl
inactive_leaks ((now, answer) ∷ beats) j fs h c t e m =
    rw (visit_missed now answer j fs h c t e m.0) (inactive_leaks beats j fs h c t e m.1)
