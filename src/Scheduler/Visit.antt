-- ===== src/Scheduler/Visit.antt =====
-- internal/scheduler/scheduler.go: what the execution branch of `run` does with one job. `answer` is
-- what `executor.GetState` returns, `none` an error, and `now` the time of the visit, which stands
-- for each `time.Now()` in it.
pub mod Started
pub mod Leak
use flotta_device_worker_ng.Base.{
  ℕ, Bool, true, false, not, ◌&&◌, ◌||◌, List, [], ◌∷◌, Option, none, some, if◌then◌else◌, Bytes,
  lookup, insert, delete,
}
use flotta_device_worker_ng.Entity.State.{
  JobState, ready, running, exited, unknown, inactive, state_eq, one_of,
}
use flotta_device_worker_ng.Entity.Future.{Future, new_future, poll}
use flotta_device_worker_ng.Entity.Job.{
  Job, CronJob, RetryJob, id, should_restart, set_current_state, cron_compute_next,
  cron_can_reconcile, retry_can_reconcile,
}

-- `entity.Result[entity.JobState]`; `error` is whether its error is not nil.
pub record Report : Type 0 where
  pub value : JobState
  pub error : Bool

abbrev pub Futures : Type 0
Futures = List (Bytes × Future Report)

-- The job and the futures behind a visit, and whether the job was removed from the store and a
-- reconciliation was started.
pub record Visit : Type 0 where
  pub job : Job
  pub futures : Futures
  pub removed : Bool
  pub started : Bool

abbrev pub seen : Job → Futures → Visit
seen j fs = record { job = j; futures = fs; removed = false; started = false }

-- `shouldReconcile`.
unfoldable pub should_reconcile : Job → Bool
should_reconcile j =
    (state_eq j.target_state running
      && one_of j.current_state (ready ∷ inactive ∷ exited ∷ unknown ∷ []))
    || (one_of j.target_state (exited ∷ inactive ∷ []) && state_eq j.current_state running)

-- A future that is resolved gives the job its state, unless it failed, and is dropped.
abbrev pub polled : ℕ → Job → Futures → Option Report → Visit
polled now j fs none = seen j fs
polled now j fs (some r) =
    seen (if r.error then j else set_current_state now r.value j) (delete (id j) fs)

-- The zero value of a report.
abbrev pub no_report : Report
no_report = record { value = ready; error = false }

abbrev pub start : Job → Futures → Visit
start j fs = record {
  job = j;
  futures = insert (id j) (new_future no_report) fs;
  removed = false;
  started = true;
}

-- A cron is looked at only if the job is to run.
abbrev pub with_cron : ℕ → Job → Futures → Option CronJob → Visit
with_cron now j fs none = start j fs
with_cron now j fs (some c) =
    if state_eq j.target_state running
    then if cron_can_reconcile now c
      then start (record j { cron = some (cron_compute_next now c) }) fs
      else seen j fs
    else start j fs

abbrev pub retry_allows : ℕ → Option RetryJob → Bool
retry_allows now none = true
retry_allows now (some r) = retry_can_reconcile now r

unfoldable pub reconcile : ℕ → Job → Futures → Visit
reconcile now j fs =
    if not (should_reconcile j)
    then seen j fs
    else if should_restart j && not (retry_allows now j.retry)
    then seen j fs
    else with_cron now j fs j.cron

-- The job is removed only if it is marked for deletion and does not run.
unfoldable pub refreshed : ℕ → Job → Futures → Visit
refreshed now j fs =
    if j.marked_for_deletion && one_of j.current_state (unknown ∷ exited ∷ ready ∷ [])
    then record { job = j; futures = delete (id j) fs; removed = true; started = false }
    else reconcile now j fs

abbrev pub fresh : ℕ → Option JobState → Job → Futures → Visit
fresh now none j fs = seen j fs
fresh now (some s) j fs = refreshed now (set_current_state now s j) fs

abbrev pub visit_with : ℕ → Option JobState → Job → Futures → Option (Future Report) → Visit
visit_with now answer j fs (some f) = polled now j fs (poll f)
visit_with now answer j fs none = fresh now answer j fs

-- The body of the loop over the jobs.
unfoldable pub visit : ℕ → Option JobState → Job → Futures → Visit
visit now answer j fs = visit_with now answer j fs (lookup (id j) fs)
