-- ===== src/Scheduler/Evaluate.antt =====
-- internal/scheduler/scheduler.go: `evaluate`, which decides from the results of the profiles whether
-- a job is active and what CPU it gets. `resultsMap` is an association list; what the loop over it
-- gives does not depend on its order.
pub mod Bounds
pub mod Least
pub mod Offers
use flotta_device_worker_ng.Base.{
  ℕ, zero, suc, ◌+◌, ◌%◌, ◌^◌, Bool, true, false, ◌&&◌, ◌||◌, List, [], ◌∷◌, ◌++◌, Option, none,
  some, leb, ◌==◌, if◌then◌else◌, length, map, Bytes, str_eq, lookup, insert,
}
use flotta_device_worker_ng.Entity.Workload.{WorkloadCondition, WorkloadProfile}
use flotta_device_worker_ng.Entity.Job.{CpuResource, Job}
use flotta_device_worker_ng.Profile.Results.{ConditionResult, ProfileEvaluationResult}

-- `evaluationResult`.
pub record Evaluation : Type 0 where
  pub active : Bool
  pub resource : Option CpuResource

-- A condition's name and its evaluation.
abbrev pub Entry : Type 0
Entry = Bytes × Evaluation

abbrev pub ResultsMap : Type 0
ResultsMap = List (Bytes × List Entry)

-- The CPU of a condition is the pattern of the 64 bits of an `int64`.
abbrev pub resource_of : Option ℕ → Option CpuResource
resource_of none = none
resource_of (some cpu) = some (record { value1 = cpu % 2 ^ 64; value2 = 100000 })

-- An entry that is not active, for a condition.
abbrev pub entry_of : WorkloadCondition → Entry
entry_of c = (c.name, record { active = false; resource = resource_of c.cpu })

unfoldable pub populate : ResultsMap → List WorkloadProfile → ResultsMap
populate m [] = m
populate m (p ∷ ps) = populate (insert p.name (map entry_of p.conditions) m) ps

-- `er.Value2.Active = true` for the entry that `findFn` finds. If it finds none, it is a new tuple
-- that changes.
unfoldable pub activate : Bytes → List Entry → List Entry
activate name [] = []
activate name (e ∷ es) =
    if str_eq e.0 name then (e.0, record e.1 { active = true }) ∷ es else e ∷ activate name es

unfoldable pub apply_conditions : List ConditionResult → List Entry → List Entry
apply_conditions [] es = es
apply_conditions (c ∷ cs) es =
    apply_conditions cs (if c.error then es else if c.value then activate c.name es else es)

-- The results of a profile that the job does not have change nothing.
abbrev pub apply_found : ProfileEvaluationResult → ResultsMap → Option (List Entry) → ResultsMap
apply_found r m none = m
apply_found r m (some es) = insert r.name (apply_conditions r.conditions_results es) m

unfoldable pub apply_results : List ProfileEvaluationResult → ResultsMap → ResultsMap
apply_results [] m = m
apply_results (r ∷ rs) m = apply_results rs (apply_found r m (lookup r.name m))

-- `minCpu` and `resource`.
pub record Choice : Type 0 where
  pub min_cpu : ℕ
  pub resource : Option CpuResource

abbrev pub weigh : Option CpuResource → Choice → Choice
weigh none ch = ch
weigh (some r) ch =
    if leb r.value1 ch.min_cpu then record { min_cpu = r.value1; resource = some r } else ch

-- The loop over the entries of a profile: `foundActive`, and the choice.
unfoldable pub choose : List Entry → Bool → Choice → Bool × Choice
choose [] found ch = (found, ch)
choose (e ∷ es) found ch =
    let ch' = if e.1.active then weigh e.1.resource ch else ch in
    choose es (e.1.active || found) ch'

abbrev pub counted : Bool → ℕ → ℕ
counted b n = if b then n + 1 else n

-- The loop over the profiles: `sum`, and the choice.
unfoldable pub total : ResultsMap → ℕ → Choice → ℕ × Choice
total [] sum ch = (sum, ch)
total ((name, es) ∷ m) sum ch =
    let (found, ch') = choose es false ch in total m (counted found sum) ch'

abbrev pub initial : Choice
initial = record { min_cpu = 100000; resource = none }

abbrev pub evaluated : ℕ → ℕ × Choice → Evaluation
evaluated results (sum, ch) = record { active = leb results sum; resource = ch.resource }

-- What the job's profiles and the results leave in the map.
unfoldable pub results_map : List WorkloadProfile → List ProfileEvaluationResult → ResultsMap
results_map profiles results = apply_results results (populate [] profiles)

-- `evaluate`, of a job with these profiles.
unfoldable pub evaluate : List WorkloadProfile → List ProfileEvaluationResult → Evaluation
evaluate [] results = record { active = true; resource = none }
evaluate (p ∷ ps) [] = record { active = true; resource = none }
evaluate (p ∷ ps) (r ∷ rs) =
    evaluated (length (r ∷ rs)) (total (results_map (p ∷ ps) (r ∷ rs)) 0 initial)
