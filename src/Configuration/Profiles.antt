-- ===== src/Configuration/Profiles.antt =====
-- From the profiles of a configuration to the results of their conditions.
use flotta_device_worker_ng.Base.{
  ◌≡◌, refl, ap, ◌∙◌, Bool, true, false, List, [], ◌∷◌, ◌++◌, map, Bytes, All,
}
use flotta_device_worker_ng.Interpreter.Float.{Float32}
use flotta_device_worker_ng.Interpreter.Parser.{E}
use flotta_device_worker_ng.Interpreter.Parser.Outcome.{Result, ok, err, out_of_fuel}
use flotta_device_worker_ng.Interpreter.Eval.{Variables, evaluate, new_interpreter}
use flotta_device_worker_ng.Profile.Results.{ConditionResult, ProfileEvaluationResult}
use flotta_device_worker_ng.Profile.Evaluator.{
  ProfileCondition, condition_result, evaluate_condition,
}
use flotta_device_worker_ng.Configuration.{Conditions, ConfProfiles, appended, create_conditions}

module _ (fl : Float32) where
  abbrev pub is_ok : Result (E fl) → Bool
  is_ok (ok e) = true
  is_ok r = false

  abbrev pub Parses : Bytes × Bytes → Type 0
  Parses c = is_ok (new_interpreter fl c.1) ≡ true

  abbrev pub condition_name : ProfileCondition fl → Bytes
  condition_name c = c.name

  abbrev pub conf_name : Bytes × Bytes → Bytes
  conf_name c = c.0

  keeps_one :
      (name : Bytes) (r : Result (E fl)) (rest : List (ProfileCondition fl))
      → is_ok r ≡ true
      → map condition_name (appended fl name r rest) ≡ name ∷ map condition_name rest
  keeps_one name (ok e) rest h = refl
  keeps_one name (err x) rest h = cc
  keeps_one name out_of_fuel rest h = cc

  breaks :
      (name : Bytes) (r : Result (E fl)) (rest : List (ProfileCondition fl))
      → is_ok r ≡ false
      → appended fl name r rest ≡ []
  breaks name (ok e) rest h = cc
  breaks name (err x) rest h = refl
  breaks name out_of_fuel rest h = refl

  -- Of a profile with an expression that does not parse, the conditions ranged over before it stay,
  -- if theirs parse, and all the others are dropped, whatever their expressions.
  pub create_conditions_cut :
      (before after : Conditions) (name expression : Bytes)
      → All Parses before
      → is_ok (new_interpreter fl expression) ≡ false
      → map condition_name (create_conditions fl (before ++ (name, expression) ∷ after))
        ≡ map conf_name before
  unfolding create_conditions
  create_conditions_cut [] after name expression h bad =
      ap (map condition_name)
        (breaks name (new_interpreter fl expression) (create_conditions fl after) bad)
  create_conditions_cut ((n, x) ∷ before) after name expression h bad =
      keeps_one n (new_interpreter fl x)
        (create_conditions fl (before ++ (name, expression) ∷ after)) h.0
      ∙ ap (λ ns. n ∷ ns) (create_conditions_cut before after name expression h.1 bad)

  module _ (metrics : Variables fl) where
    -- What a condition of the configuration evaluates to.
    abbrev pub conf_result : Bytes → Result (E fl) → List ConditionResult
    conf_result name (ok e) = condition_result fl name (evaluate fl metrics e) ∷ []
    conf_result name r = []

    abbrev pub conf_results : Conditions → List ConditionResult
    conf_results [] = []
    conf_results ((name, expression) ∷ cs) =
        conf_result name (new_interpreter fl expression) ++ conf_results cs

    abbrev pub profile_results : ConfProfiles → List ProfileEvaluationResult
    profile_results [] = []
    profile_results ((name, cs) ∷ ps) =
        record { name = name; conditions_results = conf_results cs } ∷ profile_results ps

    result_one :
        (name : Bytes) (r : Result (E fl)) (rest : List (ProfileCondition fl))
        → is_ok r ≡ true
        → map (evaluate_condition fl metrics) (appended fl name r rest)
          ≡ conf_result name r ++ map (evaluate_condition fl metrics) rest
    result_one name (ok e) rest h = refl
    result_one name (err x) rest h = cc
    result_one name out_of_fuel rest h = cc

    pub condition_results :
        (cs : Conditions)
        → All Parses cs
        → map (evaluate_condition fl metrics) (create_conditions fl cs) ≡ conf_results cs
    unfolding create_conditions
    condition_results [] h = refl
    condition_results ((n, x) ∷ cs) h =
        result_one n (new_interpreter fl x) (create_conditions fl cs) h.0
        ∙ ap (λ rs. conf_result n (new_interpreter fl x) ++ rs) (condition_results cs h.1)
