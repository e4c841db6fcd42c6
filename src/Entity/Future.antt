-- ===== src/Entity/Future.antt =====
-- internal/entity/future.go: the result of a goroutine. `deliver` and `close` are what the goroutine
-- of `NewFuture` does with a value from its channel, and when that is closed.
use flotta_device_worker_ng.Base.{Bool, true, false, Option, none, some, if◌then◌else◌}

pub record Future (T : Type 0) : Type 0 where
  pub input_closed : Bool
  pub value : T

module _ {T : Type 0} where
  -- `zero` is the zero value of the type.
  unfoldable pub new_future : T → Future T
  new_future zero = record { input_closed = false; value = zero }

  unfoldable pub deliver : T → Future T → Future T
  deliver v f = record f { value = v }

  unfoldable pub close : Future T → Future T
  close f = record f { input_closed = true }

  -- `Poll`: the value, once the channel is closed.
  unfoldable pub poll : Future T → Option T
  poll f = if f.input_closed then some f.value else none
