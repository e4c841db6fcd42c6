-- ===== src/Entity/State.antt =====
-- internal/entity/state.go: the state of a job.
use flotta_device_worker_ng.Base.{ℕ, Bool, false, ◌||◌, List, [], ◌∷◌, ◌==◌, Bytes, codes}

pub data JobState : Type 0 where
  ready running stopped degraded exited error unknown inactive : JobState

-- The value that `iota` gives a state.
abbrev pub ordinal : JobState → ℕ
ordinal ready = 0
ordinal running = 1
ordinal stopped = 2
ordinal degraded = 3
ordinal exited = 4
ordinal error = 5
ordinal unknown = 6
ordinal inactive = 7

-- `==` on states.
abbrev pub state_eq : JobState → JobState → Bool
state_eq s t = ordinal s == ordinal t

-- The method `String`.
abbrev pub state_string : JobState → Bytes
state_string ready = codes "ready"
state_string running = codes "running"
state_string degraded = codes "degraded"
state_string stopped = codes "stopped"
state_string exited = codes "exited"
state_string error = codes "error"
state_string inactive = codes "inactive"
state_string unknown = codes "unknown"

-- The method `OneOf`.
abbrev pub one_of : JobState → List JobState → Bool
one_of s [] = false
one_of s (t ∷ ts) = state_eq s t || one_of s ts
