-- ===== src/Scheduler/Tests.antt =====
-- Runs of the scheduler's model at concrete inputs.
use flotta_device_worker_ng.Base.{
  ℕ, ◌≡◌, refl, inl, inr, Bool, true, false, not, List, [], ◌∷◌, Option, none, some, Bytes, codes,
  lookup, delete, str_eq, insert, length, arith,
}
use flotta_device_worker_ng.Entity.State.{
  JobState, ready, running, exited, unknown, inactive, state_eq, one_of,
}
use flotta_device_worker_ng.Entity.Workload.{Workload, WorkloadProfile, WorkloadCondition, pod}
use flotta_device_worker_ng.Entity.Job.{
  Job, BackOff, no_resource, id, set_current_state, store_current, run_hooks, run_hook,
  should_restart,
}
use flotta_device_worker_ng.Entity.Job.Restart.{job_hooks}
use flotta_device_worker_ng.Entity.Job.States.{observed}
use flotta_device_worker_ng.Profile.Results.{ConditionResult, ProfileEvaluationResult}
use flotta_device_worker_ng.Scheduler.Interfaces.{Executor, IsFaithful}
use flotta_device_worker_ng.Scheduler.Store
use flotta_device_worker_ng.Scheduler.Store.{Heap, Store, jobs, index}
use flotta_device_worker_ng.Scheduler.Store.Laws.{erase, IsSlice, jobs-delete}
use flotta_device_worker_ng.Scheduler.Create.{retry_interval}
use flotta_device_worker_ng.Scheduler.Visit.{
  Futures, seen, visit, refreshed, reconcile, should_reconcile,
}
use flotta_device_worker_ng.Scheduler.Visit.Started.{Starts, visit-Starts, visit-removed}
use flotta_device_worker_ng.Scheduler.Visit.Leak.{visits, inactive_leaks}
use flotta_device_worker_ng.Scheduler.Loop.{Jobs, sync}
use flotta_device_worker_ng.Scheduler.Loop.Order.{sync_skips}
use flotta_device_worker_ng.Scheduler.Evaluate.{
  evaluate, results_map, populate, apply_results, apply_conditions, activate, total, choose,
}
use flotta_device_worker_ng.Scheduler.Evaluate.Bounds.{evaluate_outnumbered}
use flotta_device_worker_ng.Scheduler.Evaluate.Least.{LeastIn, evaluate-IsLeast}
use flotta_device_worker_ng.Scheduler.Evaluate.Offers.{OffersIn}
use flotta_device_worker_ng.Scheduler.Reconcile
use flotta_device_worker_ng.Scheduler.Reconcile.{pod_sync}
use flotta_device_worker_ng.Scheduler.Reconcile.Settles.{sync_settles}

-- A pod with an identifier, and a job of it.
abbrev workload : Bytes → Workload
workload name = record {
  name = name;
  id = name;
  kind = pod;
  hash = [];
  cron = [];
  is_rootless = false;
  profiles = [];
}

abbrev job : Bytes → JobState → JobState → Bool → Job
job name current target marked = record {
  workload = workload name;
  current_state = current;
  target_state = target;
  marked_for_deletion = marked;
  cron = none;
  retry = none;
  hooks = job_hooks;
  current_resources = no_resource;
  target_resources = no_resource;
}

abbrev no_futures : Futures
no_futures = []

abbrev left_over : Job
left_over = job (codes "a") inactive exited true

abbrev beats : List (ℕ × Option JobState)
beats = (1, some unknown) ∷ ((2, none) ∷ [])

inactive_leaks_example : visits beats left_over [] ≡ seen left_over []
unfolding lookup
inactive_leaks_example =
    inactive_leaks beats left_over [] refl refl refl refl (inr refl, (inl refl, tt))

abbrev waiting : Job
waiting = job (codes "a") ready running false

visit-Starts_example :
    (lookup (id waiting) no_futures ≡ none)
    × ((s : JobState) × (some ready ≡ some s)
        × Starts 5 [] (set_current_state 5 s waiting) (visit 5 (some ready) waiting []))
unfolding lookup visit refreshed reconcile should_reconcile set_current_state store_current
    run_hooks run_hook should_restart
visit-Starts_example = visit-Starts 5 (some ready) waiting [] refl

abbrev finished : Job
finished = job (codes "a") exited exited true

visit-removed_example :
    (finished.marked_for_deletion ≡ true)
    × (lookup (id finished) no_futures ≡ none)
    × ((s : JobState) × (some exited ≡ some s)
        × (one_of (observed s exited exited) (unknown ∷ exited ∷ ready ∷ []) ≡ true))
    × (lookup (id finished) (visit 5 (some exited) finished []).futures ≡ none)
unfolding lookup visit refreshed reconcile should_reconcile set_current_state store_current
    run_hooks run_hook should_restart
visit-removed_example = visit-removed 5 (some exited) finished [] refl

-- Three jobs that have exited, the first of them marked for deletion.
abbrev three : Jobs
three = record {
  heap =
      finished ∷ (job (codes "b") exited exited false ∷ (job (codes "c") exited exited false ∷ []));
  store = record { array = 0 ∷ (1 ∷ (2 ∷ [])); len = 3 };
  futures = [];
}

abbrev times : ℕ → ℕ
times i = i

abbrev all_exited : ℕ → Option JobState
all_exited i = some exited

sync_skips_example : (sync times all_exited three).1 ≡ 0 ∷ (2 ∷ (2 ∷ []))
unfolding lookup delete Store.delete index str_eq visit refreshed reconcile should_reconcile
    set_current_state store_current run_hooks run_hook should_restart
sync_skips_example =
    sync_skips times all_exited three 0 1 2 [] finished refl refl refl (refl, (refl, tt))

abbrev two : Jobs
two = record {
  heap = job (codes "b") exited exited false ∷ (job (codes "c") exited exited false ∷ []);
  store = record { array = 0 ∷ (1 ∷ []); len = 2 };
  futures = [];
}

jobs-delete_example :
    (jobs (Store.delete three.heap (codes "b") three.store) ≡ 0 ∷ (2 ∷ []))
    × IsSlice (Store.delete three.heap (codes "b") three.store)
    × (length (Store.delete three.heap (codes "b") three.store).array ≡ 3)
unfolding erase str_eq
jobs-delete_example = jobs-delete three.heap (codes "b") three.store (omega arith)

abbrev steady : ℕ → BackOff
steady interval = record { delays = λ i. interval; used = 0 }

abbrev no_cron : Bytes → Option (ℕ → ℕ)
no_cron spec = none

abbrev created : Job
created = record (job (codes "a") ready ready false) {
  retry = some (record { marked_for_restart = false; next = 3; b = steady retry_interval });
}

abbrev cpu : Bytes → ℕ → WorkloadCondition
cpu name quota = record { name = name; cpu = some quota }

abbrev demanding : WorkloadProfile
demanding = record {
  name = codes "p";
  conditions = cpu (codes "low") 200 ∷ (cpu (codes "high") 100 ∷ []);
}

abbrev profiles : List WorkloadProfile
profiles = demanding ∷ []

abbrev holding : Bytes → ConditionResult
holding name = record { name = name; value = true; error = false }

abbrev result_of : Bytes → List ConditionResult → ProfileEvaluationResult
result_of name results = record { name = name; conditions_results = results }

abbrev both_hold : ProfileEvaluationResult
both_hold = result_of (codes "p") (holding (codes "low") ∷ (holding (codes "high") ∷ []))

evaluate_outnumbered_example :
    (evaluate profiles (both_hold ∷ (result_of (codes "q") [] ∷ []))).active ≡ false
evaluate_outnumbered_example =
    evaluate_outnumbered profiles (both_hold ∷ (result_of (codes "q") [] ∷ [])) (omega arith)
      (omega arith)

evaluate-IsLeast_example :
    OffersIn (record { value1 = 100; value2 = 100000 }) (results_map profiles (both_hold ∷ []))
    × LeastIn 100 (results_map profiles (both_hold ∷ []))
unfolding evaluate results_map populate apply_results apply_conditions activate total choose lookup
    insert str_eq
evaluate-IsLeast_example = evaluate-IsLeast demanding [] both_hold []

-- A system outside that holds the state of one workload, and an executor over it.
abbrev one_pod : Executor JobState
one_pod = record {
  remove = λ w s. (false, unknown);
  run = λ w s. (false, running);
  stop = λ w s. (false, exited);
  get_state = λ w s. (some s, s);
  exists = λ w s. (some (not (state_eq s unknown)), s);
}

one_pod-IsFaithful : (w : Workload) → IsFaithful one_pod w
one_pod-IsFaithful w = record { run_starts = λ s. refl; remove_stops = λ s. refl }

sync_settles_example : should_reconcile (set_current_state 9 running waiting) ≡ false
unfolding Reconcile.sync pod_sync
sync_settles_example =
    sync_settles one_pod waiting pod exited running (record { value = running; error = false }) 9
      (one_pod-IsFaithful (workload (codes "a"))) refl refl
