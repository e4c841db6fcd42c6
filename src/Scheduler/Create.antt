-- ===== src/Scheduler/Create.antt =====
-- internal/scheduler/scheduler.go: the job of a workload.
use flotta_device_worker_ng.Base.{
  ℕ, ◌≡◌, refl, ◌⊎◌, inl, inr, true, false, [], ◌∷◌, Option, none, some, if◌then◌else◌, Bytes,
  Bool-cases, Option-cases, arith,
}
use flotta_device_worker_ng.Entity.State.{ready}
use flotta_device_worker_ng.Entity.Workload.{Workload}
use flotta_device_worker_ng.Entity.Job.{
  Job, BackOff, new_builder, with_cron, with_retry, add_hook, build, is_empty, compute_restart,
  log_target, post_set_current_state, post_set_target_state,
}
use flotta_device_worker_ng.Entity.Job.Restart.{job_hooks}

-- 10 * time.Second.
abbrev pub retry_interval : ℕ
retry_interval = 10_000_000_000

empty : (s : Bytes) → is_empty s ≡ true → s ≡ []
empty [] h = refl
empty (c ∷ s) h = cc

-- `constant` is `backoff.NewConstantBackOff`, and `parse` the parser of cron specifications.
module _ (constant : ℕ → BackOff) (parse : Bytes → Option (ℕ → ℕ)) where
  -- `createJob`; `none` is the error of a cron specification that does not parse.
  unfoldable pub create_job : ℕ → Workload → Option Job
  create_job now w =
      let builder = new_builder w in
      let timed =
        if is_empty w.cron
        then with_retry (constant retry_interval) builder
        else with_cron w.cron builder in
      build parse now (
        add_hook post_set_target_state log_target
          (add_hook post_set_current_state compute_restart timed))

  -- A new job is ready, not marked, has the hooks of `createJob`, and either a retry that is not
  -- marked and no cron, if its workload has no cron specification, or a cron and no retry.
  pub create_job_timed :
      (now : ℕ) (w : Workload) (j : Job)
      → create_job now w ≡ some j
      → (j.workload ≡ w)
        × (j.current_state ≡ ready)
        × (j.target_state ≡ ready)
        × (j.marked_for_deletion ≡ false)
        × (j.hooks ≡ job_hooks)
        × (((w.cron ≡ [])
              × (j.cron ≡ none)
              × (j.retry
                  ≡ some (record {
                    marked_for_restart = false;
                    next = now;
                    b = constant retry_interval;
                  })))
            ⊎ ((s : ℕ → ℕ) × (parse w.cron ≡ some s)
                × (j.retry ≡ none)
                × (j.cron ≡ some (record { next = s now; schedule = s }))))
  unfolding create_job build
  create_job_timed now w j e = elim (Bool-cases (is_empty w.cron)) [
    | inl c ↦ ground (arith, empty w.cron c)
    | inr c ↦ elim (Option-cases (parse w.cron)) [
      | inl p ↦ ground arith
      | inr (s, p) ↦ (
        ground arith,
        ground arith,
        ground arith,
        ground arith,
        ground arith,
        inr (s, p, ground arith, ground arith),
      )
    ]
  ]
