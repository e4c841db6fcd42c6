-- ===== src/Entity/Tests.antt =====
-- Runs of the jobs' model at concrete inputs.
use flotta_device_worker_ng.Base.{
  ℕ, zero, suc, ◌≡◌, refl, inl, true, false, [], ◌∷◌, none, some, codes,
}
use flotta_device_worker_ng.Entity.State.{JobState, running, exited, unknown}
use flotta_device_worker_ng.Entity.Workload.{pod}
use flotta_device_worker_ng.Entity.Job.{Job, RetryJob, no_resource}
use flotta_device_worker_ng.Entity.Job.Restart.{job_hooks, observe, outage_once}

-- A back-off that doubles.
abbrev doubling : ℕ → ℕ
doubling zero = 10
doubling (suc n) = 20

abbrev retry : RetryJob
retry = record { marked_for_restart = false; next = 0; b = record { delays = doubling; used = 0 } }

abbrev job : JobState → JobState → Job
job current target = record {
  workload = record {
    name = codes "a";
    id = codes "a";
    kind = pod;
    hash = [];
    cron = [];
    is_rootless = true;
    profiles = [];
  };
  current_state = current;
  target_state = target;
  marked_for_deletion = false;
  cron = none;
  retry = some retry;
  hooks = job_hooks;
  current_resources = no_resource;
  target_resources = no_resource;
}

outage_once_example :
    (observe ((5, exited) ∷ ((6, unknown) ∷ ((7, exited) ∷ []))) (job running running)).retry
    ≡ some (record {
      marked_for_restart = true;
      next = 15;
      b = record { delays = doubling; used = 1 };
    })
outage_once_example =
    outage_once 5 exited ((6, unknown) ∷ ((7, exited) ∷ [])) retry (job running running)
      (record { hooks = refl; target = refl; retry = refl }) refl refl (inl refl) (cc, (cc, tt))
