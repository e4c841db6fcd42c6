-- ===== src/Profile/Evaluator.antt =====
-- internal/profile/evaluator.go and internal/entity/profile.go: the conditions of the device's
-- profiles, and their evaluation over the metrics. A map is ranged over in its order as a list.
use flotta_device_worker_ng.Base.{Bool, List, [], ◌∷◌, Option, none, some, map, Bytes}
use flotta_device_worker_ng.Interpreter.Float.{Float32}
use flotta_device_worker_ng.Interpreter.Parser.{E}
use flotta_device_worker_ng.Interpreter.Eval.{Variables, Error, evaluate}
use flotta_device_worker_ng.Scheduler.Util.{is_some}
use flotta_device_worker_ng.Profile.Results.{ConditionResult, ProfileEvaluationResult}

module _ (fl : Float32) where
  -- The required variables are never set, and are left out.
  pub record ProfileCondition : Type 0 where
    pub name : Bytes
    pub expression : E fl

  pub record DeviceProfile : Type 0 where
    pub name : Bytes
    pub conditions : List ProfileCondition

  pub record ProfileEvaluator : Type 0 where
    pub name : Bytes
    pub profile : DeviceProfile

  abbrev pub condition_result : Bytes → Bool × Option (Error fl) → ConditionResult
  condition_result name r = record { name = name; value = r.0; error = is_some r.1 }

  abbrev pub evaluate_condition : Variables fl → ProfileCondition → ConditionResult
  evaluate_condition metrics c = condition_result c.name (evaluate fl metrics c.expression)

  -- The method `evaluate` of an evaluator.
  unfoldable pub evaluate_profile : Variables fl → ProfileEvaluator → ProfileEvaluationResult
  evaluate_profile metrics pe = record {
    name = pe.name;
    conditions_results = map (evaluate_condition metrics) pe.profile.conditions;
  }

  abbrev pub evaluator_of : Bytes × DeviceProfile → ProfileEvaluator
  evaluator_of p = record { name = p.0; profile = p.1 }

  -- `SetProfiles`.
  unfoldable pub set_profiles : List (Bytes × DeviceProfile) → List ProfileEvaluator
  set_profiles profiles = map evaluator_of profiles

  abbrev pub unless_empty : List ProfileEvaluationResult → Option (List ProfileEvaluationResult)
  unless_empty [] = none
  unless_empty (r ∷ rs) = some (r ∷ rs)

  -- `Evaluate`.
  unfoldable pub evaluate_all :
      Variables fl → List ProfileEvaluator → Option (List ProfileEvaluationResult)
  evaluate_all metrics evaluators = unless_empty (map (evaluate_profile metrics) evaluators)
