-- ===== src/Scheduler/Run/Tests.antt =====
-- Runs of the scheduler's loop at concrete inputs.
use flotta_device_worker_ng.Base.{
  ℕ, ◌+◌, ◌≡◌, refl, true, false, [], ◌∷◌, Option, none, some, Bytes, codes,
}
use flotta_device_worker_ng.Entity.State.{JobState, ready}
use flotta_device_worker_ng.Entity.Workload.{Workload, pod}
use flotta_device_worker_ng.Entity.Job.{BackOff}
use flotta_device_worker_ng.Scheduler.Run.{
  Scheduler, new_scheduler, on_input, on_heartbeat, on_execution, Step, Run,
}
use flotta_device_worker_ng.Scheduler.Run.Blocks.{IsStuck, heartbeats_block}
use flotta_device_worker_ng.Scheduler.Run.Invariant.{IsGood}
use flotta_device_worker_ng.Scheduler.Run.Kept.{run-IsGood}

abbrev workload : Bytes → Workload
workload name = record {
  name = name;
  id = name;
  kind = pod;
  hash = [];
  cron = [];
  is_rootless = false;
  profiles = [];
}

abbrev steady : ℕ → BackOff
steady interval = record { delays = λ i. interval; used = 0 }

abbrev no_cron : Bytes → Option (ℕ → ℕ)
no_cron spec = none

abbrev times : ℕ → ℕ
times i = 9 + i

abbrev all_ready : ℕ → Option JobState
all_ready i = some ready

abbrev configured : Scheduler
configured =
    on_input steady no_cron 4 (some (workload (codes "a") ∷ (workload (codes "b") ∷ [])))
      new_scheduler

abbrev ticked : Scheduler
ticked = on_heartbeat configured

-- Two workloads come, the heartbeat ticks, and the jobs are visited.
visited : Run steady no_cron new_scheduler (on_execution times all_ready ticked)
unfolding on_input on_heartbeat
visited =
    Run.next
      (Step.input 4 (some (workload (codes "a") ∷ (workload (codes "b") ∷ []))) new_scheduler refl)
      (Run.next (Step.heartbeat configured refl)
        (Run.next (Step.execution times all_ready ticked refl refl) (Run.stop _)))

run-IsGood_example : IsGood false (on_execution times all_ready ticked).jobs
unfolding visited
run-IsGood_example = run-IsGood steady no_cron visited

-- A tick, a configuration, and a second tick.
abbrev waiting : Scheduler
waiting = on_input steady no_cron 4 (some (workload (codes "a") ∷ [])) (on_heartbeat new_scheduler)

abbrev configured_late : Run steady no_cron (on_heartbeat new_scheduler) waiting
unfolding on_heartbeat
configured_late =
    Run.next (Step.input 4 (some (workload (codes "a") ∷ [])) (on_heartbeat new_scheduler) refl)
      (Run.stop waiting)

heartbeats_block_example :
    Step steady no_cron waiting (on_heartbeat waiting)
    × ((on_heartbeat waiting).blocked ≡ true)
    × IsStuck steady no_cron (on_heartbeat waiting)
unfolding on_heartbeat on_input
heartbeats_block_example =
    heartbeats_block steady no_cron new_scheduler waiting configured_late refl refl refl
