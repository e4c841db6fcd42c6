-- ===== src/Client/Mapper/Profiles.antt =====
-- From the profiles that the operator sends to the results of their conditions.
use mathlib.Core.List.{Permᴰ}
use flotta_device_worker_ng.Base.{
  ◌≡◌, refl, ap, ◌∙◌, Bool, List, [], ◌∷◌, some, map, insert, Bytes, All,
}
use flotta_device_worker_ng.Interpreter.Float.{Float32}
use flotta_device_worker_ng.Interpreter.Eval.{Variables}
use flotta_device_worker_ng.Scheduler.Util.Laws.{Distinct}
use flotta_device_worker_ng.Entity.Configuration.{DeviceConfigurationMessage}
use flotta_device_worker_ng.Profile.Evaluator.{set_profiles, evaluate_all}
use flotta_device_worker_ng.Profile.Results.{ProfileEvaluationResult}
use flotta_device_worker_ng.Configuration.{
  Conditions, ConfProfiles, DeviceProfiles, create_device_profiles,
}
use flotta_device_worker_ng.Configuration.Ranged.{Rearranges}
use flotta_device_worker_ng.Configuration.Maps.{key, insert_all, insert_all-Distinct}
use flotta_device_worker_ng.Configuration.Profiles.{Parses, profile_results}
use flotta_device_worker_ng.Configuration.Reordered.{SameResults, evaluate_ranged}
use flotta_device_worker_ng.Client.Models
use flotta_device_worker_ng.Client.Models.{ProfileCondition, Profile, HeartbeatConfiguration}
use flotta_device_worker_ng.Client.Mapper.{
  conditions_of, profiles_of, message_of, configuration_of, configuration_model2entity,
  configuration_model2entity-some,
}

-- A condition and a profile as they are sent.
abbrev pub sent_condition : ProfileCondition → Bytes × Bytes
sent_condition c = (c.name, c.expression)

abbrev pub sent_profile : Profile → Bytes × Conditions
sent_profile p = (p.name, map sent_condition p.conditions)

conditions_of-insert_all :
    (cs : List ProfileCondition) (m : Conditions)
    → conditions_of cs m ≡ insert_all (map sent_condition cs) m
unfolding conditions_of insert_all
conditions_of-insert_all [] m = refl
conditions_of-insert_all (c ∷ cs) m = conditions_of-insert_all cs _

profiles_of-insert_all :
    (ps : List Profile) (m : List (Bytes × Conditions))
    → All (λ p. Distinct key (map sent_condition p.conditions)) ps
    → profiles_of ps m ≡ insert_all (map sent_profile ps) m
unfolding profiles_of insert_all
profiles_of-insert_all [] m d = refl
profiles_of-insert_all (p ∷ ps) m d =
    let same : conditions_of p.conditions [] ≡ map sent_condition p.conditions =
      conditions_of-insert_all p.conditions []
      ∙ insert_all-Distinct (map sent_condition p.conditions) d.0 in
    ap (λ cs. profiles_of ps (insert p.name cs m)) same ∙ profiles_of-insert_all ps _ d.1

pub profiles_of-Distinct :
    (ps : List Profile)
    → Distinct key (map sent_profile ps)
    → All (λ p. Distinct key (map sent_condition p.conditions)) ps
    → profiles_of ps [] ≡ map sent_profile ps
profiles_of-Distinct ps d a =
    profiles_of-insert_all ps [] a ∙ insert_all-Distinct (map sent_profile ps) d

module _ (fl : Float32) where
  -- Of a message whose pointers are set and in which the expressions parse, no two profiles have one
  -- name and no two conditions of a profile have one name, the profiles evaluate to one result for
  -- each of their conditions, under the names that were sent: what the expression that was sent
  -- evaluates to over the metrics. This is so whatever the orders in which `createDeviceProfiles`
  -- (`order`) and `SetProfiles` (`range`) range over the maps, and the results stand in any order.
  pub evaluate_sent :
      (metrics : Variables fl) (m : Models.DeviceConfigurationMessage)
      (heartbeat : HeartbeatConfiguration) (include : Bool) (p : Profile) (ps : List Profile)
      (order : ConfProfiles → ConfProfiles) (range : DeviceProfiles fl → DeviceProfiles fl)
      → ((qs : ConfProfiles) → Rearranges qs (order qs))
      → ((ds : DeviceProfiles fl) → Permᴰ ds (range ds))
      → m.configuration ≡ some (record { heartbeat = some heartbeat; profiles = p ∷ ps })
      → heartbeat.include ≡ some include
      → Distinct key (map sent_profile (p ∷ ps))
      → All (λ q. Distinct key (map sent_condition q.conditions)) (p ∷ ps)
      → All (λ q. All (Parses fl) q.1) (map sent_profile (p ∷ ps))
      → (e : DeviceConfigurationMessage) × (ds : DeviceProfiles fl) × (rs : List
          ProfileEvaluationResult)
        × (configuration_model2entity m ≡ some e)
        × (create_device_profiles fl (order e.configuration.profiles) ≡ some ds)
        × (evaluate_all fl metrics (set_profiles fl (range ds)) ≡ some rs)
        × SameResults (profile_results fl metrics (map sent_profile (p ∷ ps))) rs
  evaluate_sent metrics m heartbeat include p ps order range lo lr e i d a h =
      let e' = message_of m (configuration_of include heartbeat (p ∷ ps)) in
      let sent = map sent_profile (p ∷ ps) in
      let (ds, rs, made, evaluated, same) =
        evaluate_ranged fl metrics sent (order sent) range refl (lo sent) lr d h in
      (
        e',
        ds,
        rs,
        configuration_model2entity-some m e refl i,
        ap (λ qs. create_device_profiles fl (order qs)) (profiles_of-Distinct (p ∷ ps) d a) ∙ made,
        evaluated,
        same,
      )
