-- ===== src/Edge/Loop/Stuck.antt =====
-- The controller's loop can block for ever.
use flotta_device_worker_ng.Interpreter.Float.{Float32}
use flotta_device_worker_ng.Entity.Configuration.{Format}
use flotta_device_worker_ng.Certificate
use flotta_device_worker_ng.Certificate.{Crypto}
use flotta_device_worker_ng.Configuration.Manager
use flotta_device_worker_ng.Edge.Interface.{Client}
use flotta_device_worker_ng.Edge.Controller.{Settings, Event}
use flotta_device_worker_ng.Edge.Loop.{State, tick_enrol, Step}

module _ {W : Type 0} (crypto : Crypto) (fl : Float32) (fmt : Format) (client : Client W)
    (settings : Settings) where
  abbrev C : Type 0
  C = State crypto fl fmt client settings

  -- No branch of the loop is taken any more.
  abbrev pub IsStuck : C → Type 0
  IsStuck t = (e : Event) (u : C) → ¬ Step crypto fl fmt client settings e t u

  abbrev tick : C → C
  tick s = tick_enrol crypto fl fmt client settings s.enrol s
