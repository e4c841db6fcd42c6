-- ===== src/Scheduler/Resources/Branch.antt =====
-- internal/scheduler/scheduler.go: the branch of `run` that reconciles the resources of the jobs.
-- `answer` is what `getJobResources` returns.
use flotta_device_worker_ng.Base.{
  ℕ, ◌+◌, Bool, true, false, not, ◌||◌, List, [], ◌∷◌, Option, none, some, if◌then◌else◌, Bytes,
  lookup, insert, delete, get_elem?, set,
}
use flotta_device_worker_ng.Entity.State.{running, state_eq}
use flotta_device_worker_ng.Entity.Workload.{is_k8s}
use flotta_device_worker_ng.Entity.Future.{Future, new_future, poll}
use flotta_device_worker_ng.Entity.Job.{
  equal, no_resource, Job, id, set_current_resources, set_target_resources,
}
use flotta_device_worker_ng.Scheduler.Store.{Heap}
use flotta_device_worker_ng.Scheduler.Resources.{Outcome, got, failed, panicked}

-- The value of a future is whether its error is not nil.
abbrev pub ResourceFutures : Type 0
ResourceFutures = List (Bytes × Future Bool)

-- The job and the futures behind a visit, whether a reconciliation was started, and whether the
-- program has panicked.
pub record ResourceVisit : Type 0 where
  pub job : Job
  pub futures : ResourceFutures
  pub started : Bool
  pub broken : Bool

abbrev pub passed : Job → ResourceFutures → ResourceVisit
passed j fs = record { job = j; futures = fs; started = false; broken = false }

-- The current resources are set, and a reconciliation starts where they are not the target.
abbrev pub compared : Job → ResourceFutures → ResourceVisit
compared j fs = if equal j.current_resources j.target_resources then passed j fs else record {
  job = j;
  futures = insert (id j) (new_future false) fs;
  started = true;
  broken = false;
}

abbrev pub measured : Outcome → Job → ResourceFutures → ResourceVisit
measured (got r) j fs = compared (set_current_resources r j) fs
measured failed j fs = passed j fs
measured panicked j fs = record { job = j; futures = fs; started = false; broken = true }

-- Only jobs that run, that are not marked for deletion and that Kubernetes does not run are synced.
unfoldable pub measure : Outcome → Job → ResourceFutures → ResourceVisit
measure answer j fs =
    if not (state_eq j.current_state running) || (j.marked_for_deletion || is_k8s j.workload.kind)
    then passed j fs
    else measured answer j fs

-- A future that is resolved is dropped; without an error the target is set to itself.
abbrev pub resolved : Option Bool → Job → Job
resolved none j = j
resolved (some true) j = j
resolved (some false) j = set_target_resources j.target_resources j

abbrev pub dropped : Option Bool → Bytes → ResourceFutures → ResourceFutures
dropped none k fs = fs
dropped (some e) k fs = delete k fs

abbrev pub polled : Option (Future Bool) → Option Bool
polled none = none
polled (some f) = poll f

-- The body of the loop over the jobs. A job without target resources is skipped. The body goes on
-- behind a future, so that a second reconciliation can start while one is pending.
unfoldable pub visit_resources : Outcome → Job → ResourceFutures → ResourceVisit
visit_resources answer j fs =
    let p = polled (lookup (id j) fs) in
    if equal j.target_resources no_resource
    then passed j fs
    else measure answer (resolved p j) (dropped p (id j) fs)

-- The heap and the futures, and whether the program has panicked.
abbrev pub Swept : Type 0
Swept = Heap × ResourceFutures × Bool

abbrev pub visited : ℕ → ResourceVisit → Heap → Swept
visited p v h = (set h p v.job, v.futures, v.broken)

abbrev pub visit_cell : Outcome → ℕ → Option Job → Heap → ResourceFutures → Swept
visit_cell answer p none h fs = (h, fs, false)
visit_cell answer p (some j) h fs = visited p (visit_resources answer j fs) h

-- A panic ends the loop: what follows makes nothing of it.
abbrev pub unless_broken : Bool → Swept → Swept → Swept
unless_broken true s rest = s
unless_broken false s rest = rest

-- The loop over the jobs of `ToList`, the answers by their rounds. No job is removed in it.
unfoldable pub sweep : (ℕ → Outcome) → ℕ → List ℕ → Heap → ResourceFutures → Swept
sweep answer i [] h fs = (h, fs, false)
sweep answer i (p ∷ ps) h fs =
    let s = visit_cell (answer i) p (get_elem? h p) h fs in
    let rest = sweep answer (i + 1) ps s.0 s.1 in unless_broken s.2 s rest
