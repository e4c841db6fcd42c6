-- ===== src/Scheduler/Receive/Tests.antt =====
-- Configurations received at concrete inputs.
use mathlib.Core.List.{Memᴰ}
use flotta_device_worker_ng.Base.{
  ℕ, ◌≡◌, refl, false, ◌||◌, List, [], ◌∷◌, Option, none, some, get_elem?, arith, Bytes, codes,
  str_eq, lookup, insert,
}
use flotta_device_worker_ng.Entity.State.{running}
use flotta_device_worker_ng.Entity.Workload.{Workload, pod}
use flotta_device_worker_ng.Entity.Job.{Job, BackOff, no_resource, build}
use flotta_device_worker_ng.Entity.Job.Restart.{job_hooks}
use flotta_device_worker_ng.Scheduler.Util.{fill, missing, substract}
use flotta_device_worker_ng.Scheduler.Util.Laws.{has}
use flotta_device_worker_ng.Scheduler.Store.{jobs}
use flotta_device_worker_ng.Scheduler.Create.{create_job}
use flotta_device_worker_ng.Scheduler.Loop.{Jobs}
use flotta_device_worker_ng.Scheduler.Receive.{id_at, receive}
use flotta_device_worker_ng.Scheduler.Receive.Retires.{IsRetired, receive-IsRetired}
use flotta_device_worker_ng.Scheduler.Receive.Ids.{ids, itself}
use flotta_device_worker_ng.Scheduler.Receive.Distinct.{receive-has}

abbrev workload : Bytes → Workload
workload name = record {
  name = name;
  id = name;
  kind = pod;
  hash = [];
  cron = [];
  is_rootless = false;
  profiles = [];
}

abbrev job : Bytes → Job
job name = record {
  workload = workload name;
  current_state = running;
  target_state = running;
  marked_for_deletion = false;
  cron = none;
  retry = none;
  hooks = job_hooks;
  current_resources = no_resource;
  target_resources = no_resource;
}

abbrev two : Jobs
two = record {
  heap = job (codes "a") ∷ (job (codes "b") ∷ []);
  store = record { array = 0 ∷ (1 ∷ []); len = 2 };
  futures = [];
}

abbrev steady : ℕ → BackOff
steady interval = record { delays = λ i. interval; used = 0 }

abbrev no_cron : Bytes → Option (ℕ → ℕ)
no_cron spec = none

-- The second workload stays, and another is new.
abbrev next : List Workload
next = workload (codes "b") ∷ (workload (codes "c") ∷ [])

receive-IsRetired_example :
    Memᴰ 0 (jobs (receive steady no_cron 4 (some next) two).store)
    × (id_at (receive steady no_cron 4 (some next) two).heap 0 ≡ id_at two.heap 0)
    × IsRetired (get_elem? (receive steady no_cron 4 (some next) two).heap 0)
unfolding has str_eq
receive-IsRetired_example =
    receive-IsRetired steady no_cron 4 next two 0 (omega arith, (omega arith, tt))
      (refl, (refl, tt)) (Memᴰ.head refl) refl

receive-has_example :
    has itself (codes "c") (ids (receive steady no_cron 4 (some next) two))
    ≡ has itself (codes "c") (ids two) || has (λ (w : Workload). w.id) (codes "c") next
unfolding create_job build substract fill missing lookup insert str_eq
receive-has_example =
    receive-has steady no_cron 4 next two (codes "c") (omega arith, (omega arith, tt)) (refl, tt)
