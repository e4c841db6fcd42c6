-- ===== src/Configuration/Results.antt =====
-- What the profiles of a configuration evaluate to, from their texts to the results.
use flotta_device_worker_ng.Base.{
  ◌≡◌, refl, sym, ap, ap₂, ◌∙◌, false, [], ◌∷◌, ◌++◌, some, map, Bytes, All, append_assoc,
  append-nil,
}
use flotta_device_worker_ng.Interpreter.Float.{Float32}
use flotta_device_worker_ng.Interpreter.Eval.{Variables}
use flotta_device_worker_ng.Scheduler.Util.Laws.{has, Distinct}
use flotta_device_worker_ng.Profile.Evaluator.{
  DeviceProfile, evaluate_profile, set_profiles, unless_empty, evaluate_all,
}
use flotta_device_worker_ng.Configuration.{
  Conditions, ConfProfiles, create_conditions, DeviceProfiles, create_profiles, present,
  create_device_profiles,
}
use flotta_device_worker_ng.Configuration.Maps.{key, insert_new, still_new, none_held}
use flotta_device_worker_ng.Configuration.Profiles.{Parses, profile_results, condition_results}

module _ (fl : Float32) where
  abbrev pub profile_of : Bytes × Conditions → Bytes × DeviceProfile fl
  profile_of p = (p.0, record { name = p.0; conditions = create_conditions fl p.1 })

  pub create_profiles-All :
      (ps : ConfProfiles) (m : DeviceProfiles fl)
      → Distinct key ps
      → All (λ p. has key (key p) m ≡ false) ps
      → create_profiles fl ps m ≡ m ++ map profile_of ps
  unfolding create_profiles
  create_profiles-All [] m d a = sym (append-nil m)
  create_profiles-All (p ∷ ps) m d a =
      let (k, v) = profile_of p in
      ap (create_profiles fl ps) (insert_new k v m a.0)
      ∙ create_profiles-All ps (m ++ (k, v) ∷ []) d.1 (still_new k v m ps d.0 a.1)
      ∙ append_assoc m ((k, v) ∷ []) (map profile_of ps)

  pub results-All :
      (metrics : Variables fl) (ps : ConfProfiles)
      → All (λ p. All (Parses fl) p.1) ps
      → map (evaluate_profile fl metrics) (set_profiles fl (map profile_of ps))
        ≡ profile_results fl metrics ps
  unfolding evaluate_profile set_profiles
  results-All metrics [] h = refl
  results-All metrics (p ∷ ps) h =
      ap₂ (λ rs t. record { name = p.0; conditions_results = rs } ∷ t)
        (condition_results fl metrics p.1 h.0) (results-All metrics ps h.1)

  -- Where each expression of a configuration parses and no two of its profiles have one name, the
  -- profiles that are made of it evaluate to one result for each of its conditions: what the expression
  -- evaluates to over the metrics, under the condition's and the profile's name, in their order.
  pub evaluate_configured :
      (metrics : Variables fl) (p : Bytes × Conditions) (ps : ConfProfiles)
      → Distinct key (p ∷ ps)
      → All (λ q. All (Parses fl) q.1) (p ∷ ps)
      → (ds : DeviceProfiles fl) × (create_device_profiles fl (p ∷ ps) ≡ some ds)
        × (evaluate_all fl metrics (set_profiles fl ds)
            ≡ some (profile_results fl metrics (p ∷ ps)))
  unfolding create_device_profiles evaluate_all
  evaluate_configured metrics p ps d h = (
    map profile_of (p ∷ ps),
    ap (present fl) (create_profiles-All (p ∷ ps) [] d (none_held (p ∷ ps) [] refl)),
    ap (unless_empty fl) (results-All metrics (p ∷ ps) h),
  )
