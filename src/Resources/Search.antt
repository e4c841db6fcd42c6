-- ===== src/Resources/Search.antt =====
-- `GetCGroup` of internal/resources/manager.go: the walk of the goroutine and the select, as a step
-- relation.
pub mod Found
pub mod Few
pub mod Race
mod Tests
use flotta_device_worker_ng.Base.{
  ◌≡◌, Bool, true, false, ◌&&◌, List, [], ◌∷◌, Option, none, some, if◌then◌else◌, Bytes,
}

-- A call of the function that `filepath.Walk` is given; `failed` is an error that is not nil.
pub record Entry : Type 0 where
  pub path : Bytes
  pub name : Bytes
  pub is_dir : Bool
  pub failed : Bool

-- The calls that the walk still has to make, the two channels, whether the goroutine has sent what
-- `Walk` returned, whether its context is done, and what the select has taken: `some none` is the
-- error that no cgroup was found. In `err_ch`, `true` is an error that is not nil.
pub record Search : Type 0 where
  pub rest : List Entry
  pub output : Option Bytes
  pub err_ch : Option Bool
  pub ended : Bool
  pub cancelled : Bool
  pub answer : Option (Option Bytes)

unfoldable pub start : List Entry → Search
start entries = record {
  rest = entries;
  output = none;
  err_ch = none;
  ended = false;
  cancelled = false;
  answer = none;
}

abbrev pub ended_with : Bool → Search → Search
ended_with failed s = record s { err_ch = some failed; ended = true }

-- The branches of the select.
abbrev pub taken : Bytes → Search → Search
taken path s = record s { output = none; answer = some (some path) }

abbrev pub given_up : Search → Search
given_up s = record s { err_ch = none; answer = some none }

abbrev pub on_cancel : Search → Search
on_cancel s = record s { cancelled = true }

-- `matches` is the regular expression, and `full_path` the argument.
module _ (matches : Bytes → Bool) where
  abbrev pub hit : Entry → Bool
  hit e = e.is_dir && matches e.name

  module _ (full_path : Bool) where
    abbrev pub given : Entry → Bytes
    given e = if full_path then e.path else e.name

    -- The channel has room for one path.
    abbrev pub must_wait : List Entry → Option Bytes → Bool
    must_wait [] output = false
    must_wait (e ∷ es) none = false
    must_wait (e ∷ es) (some path) = if e.failed then false else hit e

    abbrev pub walk_on : List Entry → Search → Search
    walk_on [] s = ended_with false s
    walk_on (e ∷ es) s =
        if e.failed
        then ended_with true s
        else if hit e
        then record s { rest = es; output = some (given e) }
        else if s.cancelled
        then ended_with true s
        else record s { rest = es }

    -- The next call of the function, or the end of the walk.
    unfoldable pub on_walk : Search → Search
    on_walk s = walk_on s.rest s

    pub data Step : Search → Search → Type 0 where
      walk : (s : Search) → s.ended ≡ false → must_wait s.rest s.output ≡ false → Step s (on_walk s)
      take :
          (path : Bytes) (s : Search)
          → s.output ≡ some path
          → s.answer ≡ none
          → Step s (taken path s)
      fail :
          (failed : Bool) (s : Search)
          → s.err_ch ≡ some failed
          → s.answer ≡ none
          → Step s (given_up s)
      cancel : (a : Option Bytes) (s : Search) → s.answer ≡ some a → Step s (on_cancel s)

    pub data Run : Search → Search → Type 0 where
      stop : (s : Search) → Run s s
      next : {l m n : Search} → Step l m → Run m n → Run l n
