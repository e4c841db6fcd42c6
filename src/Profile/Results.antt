-- ===== src/Profile/Results.antt =====
-- internal/profile/manager.go: what the evaluation of the profiles gives. `error` is whether the
-- error of the condition is not nil.
use flotta_device_worker_ng.Base.{Bool, List, Bytes}

pub record ConditionResult : Type 0 where
  pub name : Bytes
  pub value : Bool
  pub error : Bool

pub record ProfileEvaluationResult : Type 0 where
  pub name : Bytes
  pub conditions_results : List ConditionResult
