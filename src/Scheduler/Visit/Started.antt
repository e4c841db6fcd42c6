-- ===== src/Scheduler/Visit/Started.antt =====
-- When a visit starts a reconciliation, and when it removes the job.
use flotta_device_worker_ng.Base.{
  ℕ, ◌≡◌, refl, sym, ap, subst, ◌∙◌, ◌⊎◌, inl, inr, Bool, true, false, not, ◌&&◌, ◌||◌, [], ◌∷◌,
  Option, none, some, str_eq_refl, lookup, lookup-insert, lookup-delete, Bool-cases, Option-cases,
  arith,
}
use flotta_device_worker_ng.Entity.State.{
  JobState, ready, running, exited, unknown, state_eq, one_of,
}
use flotta_device_worker_ng.Entity.Future.{new_future, poll}
use flotta_device_worker_ng.Entity.Job.{
  Job, CronJob, id, should_restart, set_current_state, cron_can_reconcile,
}
use flotta_device_worker_ng.Entity.Job.States.{observed, set_current_state-Sees}
use flotta_device_worker_ng.Scheduler.Visit.{
  Report, Futures, Visit, should_reconcile, reconcile, refreshed, retry_allows, visit, polled,
  no_report,
}

-- A cron allows what it need not be asked for.
abbrev pub cron_allows : ℕ → JobState → Option CronJob → Bool
cron_allows now target none = true
cron_allows now target (some c) = not (state_eq target running) || cron_can_reconcile now c

-- What holds of a reconciliation that was started on a job `k`, behind its report.
pub record Starts (now : ℕ) (fs : Futures) (k : Job) (v : Visit) : Type 0 where
  pub needed : should_reconcile k ≡ true
  pub retried : (should_restart k ≡ false) ⊎ (retry_allows now k.retry ≡ true)
  pub timed : cron_allows now k.target_state k.cron ≡ true
  pub pending : lookup (id k) v.futures ≡ some (new_future no_report)
  pub kept : v.removed ≡ false

reconcile-Starts :
    (now : ℕ) (k : Job) (fs : Futures)
    → (reconcile now k fs).started ≡ true
    → Starts now fs k (reconcile now k fs)
unfolding reconcile
reconcile-Starts now k fs h = record {
  needed = ground arith;
  retried = ground arith;
  timed = ground arith;
  pending =
      ground (arith, lookup-insert (id k) (id k) (new_future no_report) fs, str_eq_refl (id k));
  kept = ground arith;
}

refreshed-Starts :
    (now : ℕ) (k : Job) (fs : Futures)
    → (refreshed now k fs).started ≡ true
    → Starts now fs k (refreshed now k fs)
unfolding refreshed
refreshed-Starts now k fs h =
    elim (Bool-cases
      (k.marked_for_deletion && one_of k.current_state (unknown ∷ exited ∷ ready ∷ []))) [
        | inl e ↦ cc (e, h)
        | inr e ↦ rw e (reconcile-Starts now k fs (rw e at h))
      ]

polled-started :
    (now : ℕ) (j : Job) (fs : Futures) (o : Option Report) → (polled now j fs o).started ≡ false
polled-started now j fs none = refl
polled-started now j fs (some r) = refl

absurd_of : {A : Type 0} {b : Bool} → b ≡ true → b ≡ false → A
absurd_of p q = cc (p, q)

-- A visit starts a reconciliation only if none of the job is pending and the executor told a state.
-- With that state, the job needs one; its retry, if it has to restart, and its cron, if it is to run,
-- allow it; and the one started is pending from then on, the job still in the store.
pub visit-Starts :
    (now : ℕ) (answer : Option JobState) (j : Job) (fs : Futures)
    → (visit now answer j fs).started ≡ true
    → (lookup (id j) fs ≡ none)
      × ((s : JobState) × (answer ≡ some s)
          × Starts now fs (set_current_state now s j) (visit now answer j fs))
unfolding visit
visit-Starts now answer j fs h = elim (Option-cases (lookup (id j) fs)) [
  | inr (f, e) ↦ absurd_of (rw (e, visit) at h) (polled-started now j fs (poll f))
  | inl e ↦ elim (Option-cases answer) [
    | inl a ↦ cc (e, a, h)
    | inr (s, a) ↦ (
      e,
      (
        s,
        a,
        rw (e, a, visit)
            (refreshed-Starts now (set_current_state now s j) fs (rw (e, a, visit) at h)),
      ),
    )
  ]
]

polled-removed :
    (now : ℕ) (j : Job) (fs : Futures) (o : Option Report) → (polled now j fs o).removed ≡ false
polled-removed now j fs none = refl
polled-removed now j fs (some r) = refl

refreshed-removed :
    (now : ℕ) (k : Job) (fs : Futures)
    → (refreshed now k fs).removed ≡ true
    → (k.marked_for_deletion ≡ true)
      × (one_of k.current_state (unknown ∷ exited ∷ ready ∷ []) ≡ true)
      × (lookup (id k) (refreshed now k fs).futures ≡ none)
unfolding refreshed reconcile
refreshed-removed now k fs h = ground (arith, lookup-delete (id k) (id k) fs, str_eq_refl (id k))

-- A visit removes a job only if it is marked for deletion, no reconciliation of it is pending, and the
-- state that the executor told leaves it unknown, exited or ready; none of it is pending afterwards.
pub visit-removed :
    (now : ℕ) (answer : Option JobState) (j : Job) (fs : Futures)
    → (visit now answer j fs).removed ≡ true
    → (j.marked_for_deletion ≡ true)
      × (lookup (id j) fs ≡ none)
      × ((s : JobState) × (answer ≡ some s)
          × (one_of (observed s j.current_state j.target_state) (unknown ∷ exited ∷ ready ∷ [])
              ≡ true))
      × (lookup (id j) (visit now answer j fs).futures ≡ none)
unfolding visit
visit-removed now answer j fs h = elim (Option-cases (lookup (id j) fs)) [
  | inr (f, e) ↦ absurd_of (rw (e, visit) at h) (polled-removed now j fs (poll f))
  | inl e ↦ elim (Option-cases answer) [
    | inl a ↦ cc (e, a, h)
    | inr (s, a) ↦
        let r = refreshed-removed now (set_current_state now s j) fs (rw (e, a, visit) at h) in
        let k = set_current_state-Sees now s j in
        (
          sym k.marked ∙ r.0,
          e,
          (s, a, ap (λ t. one_of t (unknown ∷ exited ∷ ready ∷ [])) (sym k.current_state) ∙ r.1),
          rw (e, a, visit)
              (subst
                (λ w. lookup w.id (refreshed now (set_current_state now s j) fs).futures ≡ none)
                k.workload r.2),
        )
  ]
]
