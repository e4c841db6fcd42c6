-- ===== src/Scheduler/Interfaces.antt =====
-- internal/scheduler/common/interfaces.go: what the scheduler calls. A call takes the state of the
-- system outside and gives the one behind it; a Boolean answer is whether the error is not nil, and
-- `none` is an error.
use flotta_device_worker_ng.Base.{◌≡◌, subst, Bool, true, false, Option, none, some, arith}
use flotta_device_worker_ng.Entity.State.{JobState, running, state_eq}
use flotta_device_worker_ng.Entity.Workload.{Workload}

pub record Executor (W : Type 0) : Type 0 where
  pub remove : Workload → W → Bool × W
  pub run : Workload → W → Bool × W
  pub stop : Workload → W → Bool × W
  pub get_state : Workload → W → Option JobState × W
  pub exists : Workload → W → Option Bool × W

-- What holds of a state that is told behind a call without an error.
abbrev pub Shown : (JobState → Type 0) → Bool → Option JobState → Type 0
Shown P false (some t) = P t
Shown P b o = Unit {0}

pub Shown-told :
    (P : JobState → Type 0) (b : Bool) (o : Option JobState) (t : JobState)
    → Shown P b o
    → b ≡ false
    → o ≡ some t
    → P t
Shown-told P false (some u) t h e g = subst P (ground (arith, g)) h
Shown-told P false none t h e g = cc
Shown-told P true o t h e g = cc

-- An executor that keeps its promises for a workload: what has been run is not seen in another state
-- than running, and what has been removed is not seen running.
pub record IsFaithful {W : Type 0} (ex : Executor W) (w : Workload) : Type 0 where
  pub run_starts :
      (s : W) → Shown (λ t. t ≡ running) (ex.run w s).0 (ex.get_state w (ex.run w s).1).0
  pub remove_stops :
      (s : W)
      → Shown
          (λ t. state_eq t running ≡ false)
          (ex.remove w s).0
          (ex.get_state w (ex.remove w s).1).0
