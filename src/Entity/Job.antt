-- ===== src/Entity/Job.antt =====
-- internal/entity/job.go: a job, its states and hooks, and its builder. A method that mutates `*Job`
-- returns the new record; `now` is what `time.Now()` returns in it. Instants and durations are
-- numbers of nanoseconds.
pub mod States
pub mod Restart
use flotta_device_worker_ng.Base.{
  ℕ, zero, suc, ◌+◌, Bool, true, false, not, ◌&&◌, ◌||◌, List, [], ◌∷◌, ◌++◌, Option, none, some,
  ltb, ◌==◌, if◌then◌else◌, Bytes,
}
use flotta_device_worker_ng.Entity.State.{
  JobState, ready, running, exited, unknown, inactive, state_eq, one_of,
}
use flotta_device_worker_ng.Entity.Workload.{Workload}

-- Quota and period.
pub record CpuResource : Type 0 where
  pub value1 : ℕ
  pub value2 : ℕ

unfoldable pub equal : CpuResource → CpuResource → Bool
equal c d = (c.value1 == d.value1) && (c.value2 == d.value2)

-- The zero value.
abbrev pub no_resource : CpuResource
no_resource = record { value1 = 0; value2 = 0 }

-- The value of the interface `cron.Schedule` is its method `Next`.
pub record CronJob : Type 0 where
  pub next : ℕ
  pub schedule : ℕ → ℕ

-- The value of the interface `backoff.BackOff`: what its calls return one after another, and how many
-- have been made.
pub record BackOff : Type 0 where
  pub delays : ℕ → ℕ
  pub used : ℕ

abbrev pub next_back_off : BackOff → ℕ × BackOff
next_back_off b = (b.delays b.used, record b { used = b.used + 1 })

pub record RetryJob : Type 0 where
  pub marked_for_restart : Bool
  pub next : ℕ
  pub b : BackOff

unfoldable pub cron_compute_next : ℕ → CronJob → CronJob
cron_compute_next now c = record c { next = c.schedule now }

unfoldable pub cron_can_reconcile : ℕ → CronJob → Bool
cron_can_reconcile now c = ltb c.next now

unfoldable pub retry_compute_next : ℕ → RetryJob → RetryJob
retry_compute_next now r =
    let (delay, b') = next_back_off r.b in record r { next = now + delay; b = b' }

unfoldable pub retry_can_reconcile : ℕ → RetryJob → Bool
retry_can_reconcile now r = ltb r.next now

pub data HookType : Type 0 where
  pre_set_current_state post_set_current_state pre_set_target_state post_set_target_state : HookType

abbrev pub hook_eq : HookType → HookType → Bool
hook_eq pre_set_current_state pre_set_current_state = true
hook_eq post_set_current_state post_set_current_state = true
hook_eq pre_set_target_state pre_set_target_state = true
hook_eq post_set_target_state post_set_target_state = true
hook_eq _ _ = false

-- The functions that the program installs as hooks: the two of `createJob`.
pub data JobStateHook : Type 0 where
  compute_restart log_target : JobStateHook

pub record Job : Type 0 where
  pub workload : Workload
  pub current_state : JobState
  pub target_state : JobState
  pub marked_for_deletion : Bool
  pub cron : Option CronJob
  pub retry : Option RetryJob
  pub hooks : List (HookType × JobStateHook)
  pub current_resources : CpuResource
  pub target_resources : CpuResource

abbrev pub id : Job → Bytes
id j = j.workload.id

unfoldable pub should_restart : Job → Bool
should_restart j = one_of j.current_state (exited ∷ unknown ∷ []) && state_eq j.target_state running

-- The first hook's effect on a retry: the time of the next one is computed once, when the job is
-- first found to need a restart, and the mark is taken off when it runs.
abbrev mark_restart : ℕ → Bool → RetryJob → RetryJob
mark_restart now due r =
    if due && not r.marked_for_restart
    then record (retry_compute_next now r) { marked_for_restart = true }
    else r

abbrev unmark_running : JobState → RetryJob → RetryJob
unmark_running s r = if state_eq s running then record r { marked_for_restart = false } else r

abbrev on_retry : (RetryJob → RetryJob) → Option RetryJob → Option RetryJob
on_retry f none = none
on_retry f (some r) = some (f r)

unfoldable pub run_hook : ℕ → JobState → JobStateHook → Job → Job
run_hook now s compute_restart j = record j {
  retry = on_retry (λ r. unmark_running s (mark_restart now (should_restart j) r)) j.retry;
}
run_hook now s log_target j = j

-- `runHooksFn`.
unfoldable pub run_hooks : ℕ → JobState → HookType → List (HookType × JobStateHook) → Job → Job
run_hooks now s type [] j = j
run_hooks now s type ((name, hook) ∷ hooks) j =
    run_hooks now s type hooks (if hook_eq name type then run_hook now s hook j else j)

unfoldable pub set_target_state : ℕ → JobState → Job → Job
set_target_state now s j =
    let j' = run_hooks now s pre_set_target_state j.hooks j in
    run_hooks now s post_set_target_state j.hooks (record j' { target_state = s })

-- What `SetCurrentState` does behind its first hooks.
unfoldable pub store_current : ℕ → JobState → Job → Job
store_current now s j =
    if state_eq s unknown && (state_eq j.current_state ready || state_eq j.current_state inactive)
    then j
    else if one_of s (unknown ∷ exited ∷ []) && state_eq j.target_state inactive
    then record j { current_state = inactive }
    else run_hooks now s post_set_current_state j.hooks (record j { current_state = s })

unfoldable pub set_current_state : ℕ → JobState → Job → Job
set_current_state now s j = store_current now s (run_hooks now s pre_set_current_state j.hooks j)

unfoldable pub mark_for_deletion : Job → Job
mark_for_deletion j = record j { marked_for_deletion = true }

unfoldable pub set_current_resources : CpuResource → Job → Job
set_current_resources r j = record j { current_resources = r }

unfoldable pub set_target_resources : CpuResource → Job → Job
set_target_resources r j = record j { target_resources = r }

pub record Builder : Type 0 where
  pub w : Workload
  pub cron_spec : Bytes
  pub retry_backoff : Option BackOff
  pub hooks : List (HookType × JobStateHook)

abbrev pub new_builder : Workload → Builder
new_builder w = record { w = w; cron_spec = []; retry_backoff = none; hooks = [] }

-- `WithConstantRetry` and `WithExponentialRetry`: `b` is the value that the backoff package makes.
abbrev pub with_retry : BackOff → Builder → Builder
with_retry b jb = record jb { retry_backoff = some b }

abbrev pub with_cron : Bytes → Builder → Builder
with_cron spec jb = record jb { cron_spec = spec }

abbrev pub add_hook : HookType → JobStateHook → Builder → Builder
add_hook type hook jb = record jb { hooks = jb.hooks ++ (type, hook) ∷ [] }

abbrev pub retry_of : ℕ → Option BackOff → Option RetryJob
retry_of now none = none
retry_of now (some b) = some (record { marked_for_restart = false; next = now; b = b })

-- A job of a builder, in its ready state.
abbrev pub built : ℕ → Builder → Option CronJob → Job
built now jb cron = record {
  workload = jb.w;
  current_state = ready;
  target_state = ready;
  marked_for_deletion = false;
  cron = cron;
  retry = retry_of now jb.retry_backoff;
  hooks = jb.hooks;
  current_resources = no_resource;
  target_resources = no_resource;
}

abbrev pub built_with : ℕ → Builder → Option (ℕ → ℕ) → Option Job
built_with now jb none = none
built_with now jb (some sched) =
    some (built now jb (some (record { next = sched now; schedule = sched })))

abbrev pub is_empty : Bytes → Bool
is_empty [] = true
is_empty (c ∷ s) = false

-- `Build`; `parse` is the specification parser of the cron package, and `none` its error.
unfoldable pub build : (Bytes → Option (ℕ → ℕ)) → ℕ → Builder → Option Job
build parse now jb =
    if is_empty jb.cron_spec
    then some (built now jb none)
    else built_with now jb (parse jb.cron_spec)
