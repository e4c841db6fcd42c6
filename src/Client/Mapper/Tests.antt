-- ===== src/Client/Mapper/Tests.antt =====
-- Messages of the operator at concrete inputs.
use mathlib.Core.List.{Permᴰ}
use flotta_device_worker_ng.Base.{
  List, map, Bytes, ◌≤◌, ◌≡◌, ◌↔◌, refl, true, [], ◌∷◌, some, codes, arith, str_eq,
}
use flotta_device_worker_ng.Interpreter.Naturals.{naturals}
use flotta_device_worker_ng.Interpreter.Lexer
use flotta_device_worker_ng.Interpreter.Lexer.{
  new_lexer, skip, collect, scan_name, scan_number, scan_two, scan_symbol, scan_token, scan,
}
use flotta_device_worker_ng.Interpreter.Parser
use flotta_device_worker_ng.Interpreter.Parser.{
  primary, unary_expr, value_expr, compare, and_expr, or_loop, or_expr, expression, parse,
}
use flotta_device_worker_ng.Interpreter.Eval.{Variables, float32}
use flotta_device_worker_ng.Scheduler.Util.Laws.{has}
use flotta_device_worker_ng.Profile.Results.{ProfileEvaluationResult}
use flotta_device_worker_ng.Profile.Evaluator.{set_profiles, evaluate_all}
use flotta_device_worker_ng.Entity.Configuration.{DeviceConfigurationMessage}
use flotta_device_worker_ng.Configuration.{ConfProfiles, DeviceProfiles, create_device_profiles}
use flotta_device_worker_ng.Client.Models
use flotta_device_worker_ng.Client.Models.{HeartbeatConfiguration, ProfileCondition, Profile}
use flotta_device_worker_ng.Client.Mapper.{configuration_model2entity}
use flotta_device_worker_ng.Client.Mapper.Bounds.{Means, configuration_model2entity_period}
use flotta_device_worker_ng.Client.Mapper.Profiles.{sent_profile, evaluate_sent}
use flotta_device_worker_ng.Configuration.Profiles.{profile_results}
use flotta_device_worker_ng.Configuration.Ranged.{Inner, Rearranges}
use flotta_device_worker_ng.Configuration.Reordered.{SameResults, refl-Perm}

abbrev minute : HeartbeatConfiguration
minute = record { include = some true; period_seconds = 60 }

abbrev low : Profile
low = record {
  name = codes "performance";
  conditions = record { name = codes "low"; expression = codes "cpu<5" } ∷ [];
}

abbrev configuration : Models.DeviceConfiguration
configuration = record { heartbeat = some minute; profiles = low ∷ [] }

abbrev message : Models.DeviceConfigurationMessage
message = record {
  configuration = some configuration;
  device_id = codes "device";
  workloads = [];
  workloads_monitoring_interval = 5;
}

configuration_model2entity_period_example :
    (e : DeviceConfigurationMessage) × (configuration_model2entity message ≡ some e)
    × (Means e.configuration.heartbeat.period 60 ↔ (60 ≤ 9223372036))
    × (Means e.workloads_monitoring_interval 5 ↔ (5 ≤ 9223372036))
configuration_model2entity_period_example =
    configuration_model2entity_period message configuration minute true refl refl refl (omega arith)
      (omega arith)

abbrev metrics : Variables naturals
metrics = (codes "cpu", float32 3) ∷ []

abbrev high : Profile
high = record {
  name = codes "thrift";
  conditions = record { name = codes "high"; expression = codes "cpu>8" } ∷ [];
}

abbrev both : Models.DeviceConfiguration
both = record { heartbeat = some minute; profiles = low ∷ (high ∷ []) }

-- The first two of a map's pairs are ranged over in the other order.
abbrev swap_first : {A : Type 0} → List A → List A
swap_first [] = []
swap_first (x ∷ []) = x ∷ []
swap_first (x ∷ (y ∷ l)) = y ∷ (x ∷ l)

swap_first-Perm : {A : Type 0} (l : List A) → Permᴰ l (swap_first l)
swap_first-Perm [] = Permᴰ.nil
swap_first-Perm (x ∷ []) = Permᴰ.cons refl Permᴰ.nil
swap_first-Perm (x ∷ (y ∷ l)) = Permᴰ.swap refl refl

Inner-same : {A : Type 0} (ps : List (Bytes × List A)) → Inner ps ps
Inner-same [] = tt
Inner-same (p ∷ ps) = (refl, refl-Perm p.1, Inner-same ps)

swap_first-Rearranges : (qs : ConfProfiles) → Rearranges qs (swap_first qs)
swap_first-Rearranges qs = (qs, Inner-same qs, swap_first-Perm qs)

evaluate_sent_example :
    (e : DeviceConfigurationMessage) × (ds : DeviceProfiles naturals) × (rs : List
      ProfileEvaluationResult)
    × (configuration_model2entity (record message { configuration = some both }) ≡ some e)
    × (create_device_profiles naturals (swap_first e.configuration.profiles) ≡ some ds)
    × (evaluate_all naturals metrics (set_profiles naturals (swap_first ds)) ≡ some rs)
    × SameResults (profile_results naturals metrics (map sent_profile (low ∷ (high ∷ [])))) rs
unfolding has parse expression or_expr or_loop and_expr compare value_expr unary_expr primary
    Parser.next scan scan_token scan_name scan_number scan_two scan_symbol skip collect new_lexer
    Lexer.next str_eq
evaluate_sent_example =
    evaluate_sent naturals metrics (record message { configuration = some both }) minute true low
      (high ∷ []) swap_first swap_first swap_first-Rearranges swap_first-Perm refl refl
      (refl, (refl, tt)) ((refl, tt), ((refl, tt), tt)) ((refl, tt), ((refl, tt), tt))
