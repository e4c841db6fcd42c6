-- ===== src/Entity/Job/Restart.antt =====
-- When the retry of a job is computed.
use flotta_device_worker_ng.Base.{
  ℕ, ◌+◌, ◌≡◌, refl, ◌≢◌, true, false, List, [], ◌∷◌, some, ◌⊎◌, inl, inr, All, arith,
}
use flotta_device_worker_ng.Entity.State.{JobState, running, exited, unknown}
use flotta_device_worker_ng.Entity.Job.{
  Job, RetryJob, HookType, JobStateHook, compute_restart, log_target, post_set_current_state,
  post_set_target_state, run_hook, run_hooks, set_current_state, store_current, should_restart,
  retry_compute_next,
}

-- The hooks that `createJob` adds.
abbrev pub job_hooks : List (HookType × JobStateHook)
job_hooks = (post_set_current_state, compute_restart) ∷ (post_set_target_state, log_target) ∷ []

-- Reports, each with its time, one after another.
unfoldable pub observe : List (ℕ × JobState) → Job → Job
observe [] j = j
observe ((now, s) ∷ reports) j = observe reports (set_current_state now s j)

-- A retry that is marked with its next time set.
abbrev pub scheduled : ℕ → RetryJob → RetryJob
scheduled now r = record (retry_compute_next now r) { marked_for_restart = true }

-- The job of `createJob` that is to run, with its retry.
pub record Awaits (r : RetryJob) (j : Job) : Type 0 where
  pub hooks : j.hooks ≡ job_hooks
  pub target : j.target_state ≡ running
  pub retry : j.retry ≡ some r

outage_first :
    (now : ℕ) (s : JobState) (r : RetryJob) (j : Job)
    → Awaits r j
    → j.current_state ≡ running
    → r.marked_for_restart ≡ false
    → (s ≡ exited) ⊎ (s ≡ unknown)
    → Awaits (scheduled now r) (set_current_state now s j)
unfolding set_current_state store_current run_hooks run_hook should_restart retry_compute_next
outage_first now s r j a c m (inl e) = ground arith
outage_first now s r j a c m (inr e) = ground arith

outage_next :
    (now : ℕ) (s : JobState) (r : RetryJob) (j : Job)
    → Awaits r j
    → r.marked_for_restart ≡ true
    → s ≢ running
    → Awaits r (set_current_state now s j)
unfolding set_current_state store_current run_hooks run_hook should_restart retry_compute_next
outage_next now s r j a m n = ground arith

outage_rest :
    (reports : List (ℕ × JobState)) (r : RetryJob) (j : Job)
    → Awaits r j
    → r.marked_for_restart ≡ true
    → All (λ (report : ℕ × JobState). report.1 ≢ running) reports
    → Awaits r (observe reports j)
unfolding observe
outage_rest [] r j a m h = a
outage_rest ((now, s) ∷ reports) r j a m h =
    outage_rest reports r (set_current_state now s j) (outage_next now s r j a m h.0) m h.1

-- When a running job that is to run is reported exited or unknown, its next restart is put one delay
-- of its back-off behind the time of that report, and no later report but one that it runs moves it:
-- the back-off is asked once for each outage.
pub outage_once :
    (now : ℕ) (s : JobState) (reports : List (ℕ × JobState)) (r : RetryJob) (j : Job)
    → Awaits r j
    → j.current_state ≡ running
    → r.marked_for_restart ≡ false
    → (s ≡ exited) ⊎ (s ≡ unknown)
    → All (λ (report : ℕ × JobState). report.1 ≢ running) reports
    → (observe ((now, s) ∷ reports) j).retry
      ≡ some (record {
        marked_for_restart = true;
        next = now + r.b.delays r.b.used;
        b = record { delays = r.b.delays; used = r.b.used + 1 };
      })
unfolding observe retry_compute_next
outage_once now s reports r j a c m e h =
    (outage_rest reports (scheduled now r) (set_current_state now s j)
      (outage_first now s r j a c m e) refl h).retry
