-- ===== src/Scheduler/Run.antt =====
-- internal/scheduler/scheduler.go: the loop of `run` as a step relation. A step is one branch of its
-- `select`. The channels `executionSync`, `resourceSync` and `evaluationSync`, with room for one
-- message, are the marks of the state that there is one. A step may come at any time, and between two
-- steps a workload may get another identifier.
pub mod Blocks
pub mod Invariant
pub mod Swept
pub mod Kept
mod Tests
use flotta_device_worker_ng.Base.{
  ℕ, ◌≡◌, Bool, true, false, not, ◌&&◌, List, [], ◌∷◌, Option, none, some, if◌then◌else◌, Bytes,
}
use flotta_device_worker_ng.Entity.State.{JobState, running, inactive}
use flotta_device_worker_ng.Entity.Workload.{Workload}
use flotta_device_worker_ng.Entity.Job.{
  CpuResource, Job, BackOff, set_target_state, set_target_resources,
}
use flotta_device_worker_ng.Profile.Results.{ProfileEvaluationResult}
use flotta_device_worker_ng.Scheduler.Store.{Heap, jobs, new_store}
use flotta_device_worker_ng.Scheduler.Evaluate.{Evaluation, evaluate}
use flotta_device_worker_ng.Scheduler.Loop.{Jobs, sync}
use flotta_device_worker_ng.Scheduler.Receive.{change, receive}
use flotta_device_worker_ng.Scheduler.Resources.{Outcome}
use flotta_device_worker_ng.Scheduler.Resources.Branch.{ResourceFutures, sweep}

-- `blocked` is whether the loop waits for room in `executionSync`, whose only reader it is, and
-- `panicked` whether the branch of the resources has panicked.
pub record Scheduler : Type 0 where
  pub jobs : Jobs
  pub resource_futures : ResourceFutures
  pub profile_evaluation_results : List ProfileEvaluationResult
  pub execution_sync : Bool
  pub resource_sync : Bool
  pub evaluation_sync : Bool
  pub blocked : Bool
  pub panicked : Bool

-- `newScheduler`, with the channels that `run` makes.
abbrev pub new_scheduler : Scheduler
new_scheduler = record {
  jobs = record { heap = []; store = new_store; futures = [] };
  resource_futures = [];
  profile_evaluation_results = [];
  execution_sync = false;
  resource_sync = false;
  evaluation_sync = false;
  blocked = false;
  panicked = false;
}

abbrev pub with_resource : Option CpuResource → Job → Job
with_resource none j = j
with_resource (some r) j = set_target_resources r j

abbrev pub apply_evaluation : ℕ → Evaluation → Job → Job
apply_evaluation now ev j =
    if ev.active
    then with_resource ev.resource (set_target_state now running j)
    else set_target_state now inactive j

-- A job that is marked for deletion is not evaluated.
unfoldable pub evaluate_job : ℕ → List ProfileEvaluationResult → Job → Job
evaluate_job now results j =
    if j.marked_for_deletion
    then j
    else apply_evaluation now (evaluate j.workload.profiles results) j

unfoldable pub evaluate_all : ℕ → List ProfileEvaluationResult → List ℕ → Heap → Heap
evaluate_all now results [] h = h
evaluate_all now results (p ∷ ps) h =
    evaluate_all now results ps (change (evaluate_job now results) p h)

-- The branch of `evaluationSync`.
unfoldable pub on_evaluation : ℕ → Scheduler → Scheduler
on_evaluation now s = record s {
  jobs = record s.jobs {
    heap = evaluate_all now s.profile_evaluation_results (jobs s.jobs.store) s.jobs.heap;
  };
  evaluation_sync = false;
  resource_sync = true;
}

-- The branch of `executionSync`: `time` and `answer` are as in the loop over the jobs.
unfoldable pub on_execution : (ℕ → ℕ) → (ℕ → Option JobState) → Scheduler → Scheduler
on_execution time answer s = record s {
  jobs = (sync time answer s.jobs).0;
  execution_sync = false;
  resource_sync = true;
}

-- The branch of `resourceSync`: `answer` is what `getJobResources` returns in each round.
unfoldable pub on_resources : (ℕ → Outcome) → Scheduler → Scheduler
on_resources answer s =
    let (h, fs, broken) = sweep answer 0 (jobs s.jobs.store) s.jobs.heap s.resource_futures in
    record s {
      jobs = record s.jobs { heap = h };
      resource_futures = fs;
      resource_sync = false;
      panicked = broken;
    }

-- The branch of `profileCh`; `same` is what `reflect.DeepEqual` says.
unfoldable pub on_results : List ProfileEvaluationResult → Bool → Scheduler → Scheduler
on_results results same s =
    if same then s else record s { profile_evaluation_results = results; evaluation_sync = true }

-- `ID` and `Hash` of a workload are computed from its maps, which the backend changes: the workload of
-- the job at an address has another identifier and another hash from now on.
abbrev pub with_identity : Bytes → Bytes → Job → Job
with_identity k hash j = record j { workload = record j.workload { id = k; hash = hash } }

unfoldable pub on_rename : ℕ → Bytes → Bytes → Scheduler → Scheduler
on_rename p k hash s = record s {
  jobs = record s.jobs { heap = change (with_identity k hash) p s.jobs.heap };
}

-- The loop goes on.
abbrev pub is_live : Scheduler → Bool
is_live s = not s.blocked && not s.panicked

-- The branch of the ticker. A send to a channel without room blocks.
unfoldable pub on_heartbeat : Scheduler → Scheduler
on_heartbeat s =
    if s.execution_sync then record s { blocked = true } else record s { execution_sync = true }

module _ (constant : ℕ → BackOff) (parse : Bytes → Option (ℕ → ℕ)) where
  abbrev pub asks_evaluation : Option (List Workload) → Bool → Bool
  asks_evaluation none sync = sync
  asks_evaluation (some ws) sync = true

  -- The branch of `input`.
  unfoldable pub on_input : ℕ → Option (List Workload) → Scheduler → Scheduler
  on_input now opt s = record s {
    jobs = receive constant parse now opt s.jobs;
    evaluation_sync = asks_evaluation opt s.evaluation_sync;
  }

  -- A branch is taken where its channel has a message. The workloads, the results and the ticker's
  -- messages come from outside at any time.
  pub data Step : Scheduler → Scheduler → Type 0 where
    input :
        (now : ℕ) (opt : Option (List Workload)) (s : Scheduler)
        → is_live s ≡ true
        → Step s (on_input now opt s)
    results :
        (rs : List ProfileEvaluationResult) (same : Bool) (s : Scheduler)
        → is_live s ≡ true
        → Step s (on_results rs same s)
    execution :
        (time : ℕ → ℕ) (answer : ℕ → Option JobState) (s : Scheduler)
        → is_live s ≡ true
        → s.execution_sync ≡ true
        → Step s (on_execution time answer s)
    resources :
        (answer : ℕ → Outcome) (s : Scheduler)
        → is_live s ≡ true
        → s.resource_sync ≡ true
        → Step s (on_resources answer s)
    evaluation :
        (now : ℕ) (s : Scheduler)
        → is_live s ≡ true
        → s.evaluation_sync ≡ true
        → Step s (on_evaluation now s)
    heartbeat : (s : Scheduler) → is_live s ≡ true → Step s (on_heartbeat s)

  -- A run of the loop, with the changes of identifiers in between, which come at any time.
  pub data Run : Scheduler → Scheduler → Type 0 where
    stop : (s : Scheduler) → Run s s
    next : {s t u : Scheduler} → Step s t → Run t u → Run s u
    rename :
        (p : ℕ) (k hash : Bytes) (s : Scheduler) {u : Scheduler}
        → Run (on_rename p k hash s) u
        → Run s u
