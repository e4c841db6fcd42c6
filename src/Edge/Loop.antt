-- ===== src/Edge/Loop.antt =====
-- internal/edge/controller.go: the branches of the operation, the ticker and the shutdown, and the loop
-- of `run` as a step relation. A step is one branch of its `select`.
pub mod Keeps
pub mod Phases
pub mod Stuck
pub mod Refused
pub mod Period
mod Tests
use flotta_device_worker_ng.Base.{
  ℕ, ◌^◌, ◌≡◌, Bool, true, false, ◌&&◌, List, [], ◌∷◌, Option, none, some, if◌then◌else◌, ltb,
  Bytes,
}
use flotta_device_worker_ng.Interpreter.Float.{Float32}
use flotta_device_worker_ng.Entity.State.{JobState}
use flotta_device_worker_ng.Entity.Configuration.{Format}
use flotta_device_worker_ng.Certificate.{Crypto}
use flotta_device_worker_ng.Edge.Interface.{Error, Client}
use flotta_device_worker_ng.Edge.Controller.{
  Channel, nil, empty, full, Status, going, blocked, broken, Settings, Event, operated, quiet,
  Controller, send_heartbeat, get_configuration, on_error, on_enrol, on_register,
}

-- `Wait` returns the error that came first.
abbrev pub first_error : Option Error → Option Error → Option Error
first_error none f = f
first_error (some e) f = some e

-- Whether `Reset` takes a duration: it panics at one that is not positive.
abbrev pub is_positive : ℕ → Bool
is_positive p = ltb 0 p && ltb p (2 ^ 63)

module _ {W : Type 0} (crypto : Crypto) (fl : Float32) (fmt : Format) (client : Client W)
    (settings : Settings) where
  abbrev pub State : Type 0
  State = Controller crypto fl fmt client settings

  -- A goroutine that comes second makes nothing of a program that has panicked.
  abbrev pub unless_broken : Status → Option Error × State → State → Option Error × State
  unless_broken broken r s = (none, s)
  unless_broken going r s = r
  unless_broken blocked r s = r

  abbrev pub then_both :
      Option Error × State → (State → Option Error × State) → Option Error × State
  then_both (e, s) g = let (f, s1) = unless_broken s.status (g s) s in (first_error e f, s1)

  -- The two goroutines, the one of the heartbeat first or second.
  abbrev pub both : Option (List (Bytes × JobState)) → Bool → State → Option Error × State
  both reader true s =
      then_both (send_heartbeat crypto fl fmt client settings reader s)
        (get_configuration crypto fl fmt client settings)
  both reader false s =
      then_both (get_configuration crypto fl fmt client settings s)
        (send_heartbeat crypto fl fmt client settings reader)

  -- `Wait` returns where no goroutine blocks.
  abbrev pub waited : Status → Option Error → State → State
  waited going e s = on_error crypto fl fmt client settings e s
  waited blocked e s = s
  waited broken e s = s

  -- The branch of `op`: `reader` is what the status reader returns.
  unfoldable pub on_op : Option (List (Bytes × JobState)) → Bool → State → Event × State
  on_op reader first s =
      let (e, s1) = both reader first (record s { op = empty }) in (operated, waited s1.status e s1)

  -- The branch of `configuration`. The reset starts a ticker that is stopped.
  unfoldable pub on_configuration : ℕ → State → Event × State
  on_configuration p s =
      if is_positive p
      then (quiet, record s { configuration = none; period = p; stopped = false })
      else (quiet, record s { configuration = none; status = broken })

  -- A send to a channel whose message has not been taken blocks.
  abbrev pub tick_op : Channel → State → State
  tick_op empty s = record s { op = full }
  tick_op full s = record s { status = blocked }
  tick_op nil s = record s { status = blocked }

  abbrev pub tick_register : Channel → State → State
  tick_register nil s = tick_op s.op s
  tick_register empty s = record s { register = full }
  tick_register full s = record s { status = blocked }

  abbrev pub tick_enrol : Channel → State → State
  tick_enrol nil s = tick_register s.register s
  tick_enrol empty s = record s { enrol = full }
  tick_enrol full s = record s { status = blocked }

  -- The branch of the ticker.
  unfoldable pub on_tick : State → Event × State
  on_tick s = (quiet, tick_enrol s.enrol s)

  -- The branches of `ctx.Done` and of `done`, behind which the loop goes on.
  unfoldable pub on_shutdown : State → Event × State
  on_shutdown s = (quiet, record s { stopped = true })

  -- A branch is taken where its channel has a message; the ticker's come until it is stopped.
  pub data Step : Event → State → State → Type 0 where
    enrol :
        (s : State)
        → s.status ≡ going
        → s.enrol ≡ full
        → Step
            (on_enrol crypto fl fmt client settings s).0
            s
            (on_enrol crypto fl fmt client settings s).1
    register :
        (random : Bytes) (create write : Bool) (s : State)
        → s.status ≡ going
        → s.register ≡ full
        → Step
            (on_register crypto fl fmt client settings random create write s).0
            s
            (on_register crypto fl fmt client settings random create write s).1
    op :
        (reader : Option (List (Bytes × JobState))) (first : Bool) (s : State)
        → s.status ≡ going
        → s.op ≡ full
        → Step (on_op reader first s).0 s (on_op reader first s).1
    configuration :
        (p : ℕ) (s : State)
        → s.status ≡ going
        → s.configuration ≡ some p
        → Step (on_configuration p s).0 s (on_configuration p s).1
    tick : (s : State) → s.status ≡ going → s.stopped ≡ false → Step (on_tick s).0 s (on_tick s).1
    shutdown : (s : State) → s.status ≡ going → Step (on_shutdown s).0 s (on_shutdown s).1

  -- A run of the loop, with what its branches have done.
  pub data Run : List Event → State → State → Type 0 where
    stop : (s : State) → Run [] s s
    next :
        {e : Event} {es : List Event} {s t u : State} → Step e s t → Run es t u → Run (e ∷ es) s u
