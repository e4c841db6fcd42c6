-- ===== src/Configuration/Reordered.antt =====
-- What the profiles of a configuration evaluate to, in whatever orders the maps are ranged over.
use mathlib.Core.List.{Permᴰ}
use flotta_device_worker_ng.Base.{
  ◌≡◌, refl, sym, ap, ◌∙◌, subst, false, List, [], ◌∷◌, ◌++◌, some, map, Bytes, All,
}
use flotta_device_worker_ng.Interpreter.Float.{Float32}
use flotta_device_worker_ng.Interpreter.Eval.{Variables, new_interpreter}
use flotta_device_worker_ng.Scheduler.Util.Laws.{Distinct}
use flotta_device_worker_ng.Profile.Results.{ConditionResult, ProfileEvaluationResult}
use flotta_device_worker_ng.Profile.Evaluator.{
  evaluate_profile, evaluator_of, set_profiles, unless_empty, evaluate_all,
}
use flotta_device_worker_ng.Configuration.{
  Conditions, ConfProfiles, DeviceProfiles, present, create_device_profiles,
}
use flotta_device_worker_ng.Configuration.Maps.{key, none_held}
use flotta_device_worker_ng.Configuration.Profiles.{
  Parses, conf_result, conf_results, profile_results,
}
use flotta_device_worker_ng.Configuration.Results.{profile_of, create_profiles-All, results-All}
use flotta_device_worker_ng.Configuration.Ranged.{
  Rearranges, Rearranges-Distinct, Rearranges-All, Rearranges-map, Rearranges-nil, under, map-Perm,
  is_nil, nil-Perm,
}

append-Perm :
    {A : Type 0} (xs : List A) {ys zs : List A} → Permᴰ ys zs → Permᴰ (xs ++ ys) (xs ++ zs)
append-Perm [] p = p
append-Perm (x ∷ xs) p = Permᴰ.cons refl (append-Perm xs p)

pub refl-Perm : {A : Type 0} (xs : List A) → Permᴰ xs xs
refl-Perm [] = Permᴰ.nil
refl-Perm (x ∷ xs) = Permᴰ.cons refl (refl-Perm xs)

move-Perm : {A : Type 0} (x : A) (ys zs : List A) → Permᴰ (x ∷ (ys ++ zs)) (ys ++ x ∷ zs)
move-Perm x [] zs = refl-Perm (x ∷ zs)
move-Perm x (y ∷ ys) zs = Permᴰ.trans (Permᴰ.swap refl refl) (Permᴰ.cons refl (move-Perm x ys zs))

flip-Perm : {A : Type 0} (xs ys zs : List A) → Permᴰ (xs ++ (ys ++ zs)) (ys ++ (xs ++ zs))
flip-Perm [] ys zs = refl-Perm (ys ++ zs)
flip-Perm (x ∷ xs) ys zs =
    Permᴰ.trans (Permᴰ.cons refl (flip-Perm xs ys zs)) (move-Perm x ys (xs ++ zs))

-- A result as the pair of its profile's name and the results of its conditions.
abbrev pub as_pair : ProfileEvaluationResult → Bytes × List ConditionResult
as_pair r = (r.name, r.conditions_results)

-- The same results, those of the profiles and those of the conditions of each in any order.
abbrev pub SameResults : List ProfileEvaluationResult → List ProfileEvaluationResult → Type 0
SameResults rs ts = Rearranges (map as_pair rs) (map as_pair ts)

module _ (fl : Float32) (metrics : Variables fl) where
  abbrev result_of : Bytes × Bytes → List ConditionResult
  result_of c = conf_result fl metrics c.0 (new_interpreter fl c.1)

  conf_results-Perm :
      (cs ds : Conditions)
      → Permᴰ cs ds
      → Permᴰ (conf_results fl metrics cs) (conf_results fl metrics ds)
  conf_results-Perm _ _ Permᴰ.nil = Permᴰ.nil
  conf_results-Perm _ _ (Permᴰ.cons {a} {b} {l₁} {l₂} e p) =
      subst
        (λ c.
          Permᴰ (result_of a ++ conf_results fl metrics l₁)
            (result_of c ++ conf_results fl metrics l₂))
        e (append-Perm (result_of a) (conf_results-Perm l₁ l₂ p))
  conf_results-Perm _ _ (Permᴰ.swap {a} {b} {a'} {b'} {l} e g) =
      subst
        (λ x.
          Permᴰ (result_of a ++ (result_of b ++ conf_results fl metrics l))
            (result_of x ++ (result_of b' ++ conf_results fl metrics l)))
        g
        (subst
          (λ y.
            Permᴰ (result_of a ++ (result_of b ++ conf_results fl metrics l))
              (result_of b ++ (result_of y ++ conf_results fl metrics l)))
          e (flip-Perm (result_of a) (result_of b) (conf_results fl metrics l)))
  conf_results-Perm _ _ (Permᴰ.trans {l₂} p q) =
      Permᴰ.trans (conf_results-Perm _ l₂ p) (conf_results-Perm l₂ _ q)

  profile_results-pairs :
      (ps : ConfProfiles)
      → map (under (conf_results fl metrics) conf_results-Perm) ps
        ≡ map as_pair (profile_results fl metrics ps)
  profile_results-pairs [] = refl
  profile_results-pairs (p ∷ ps) =
      ap (λ t. (p.0, conf_results fl metrics p.1) ∷ t) (profile_results-pairs ps)

  pub profile_results-Same :
      (ps qs : ConfProfiles)
      → Rearranges ps qs
      → SameResults (profile_results fl metrics ps) (profile_results fl metrics qs)
  profile_results-Same ps qs r =
      subst (λ t. Rearranges t (map as_pair (profile_results fl metrics qs)))
        (profile_results-pairs ps)
        (subst (Rearranges (map (under (conf_results fl metrics) conf_results-Perm) ps))
          (profile_results-pairs qs)
          (Rearranges-map (conf_results fl metrics) conf_results-Perm ps qs r))

  Rearranges-Perm :
      {A : Type 0} (ps qs rs : List (Bytes × List A))
      → Rearranges ps qs
      → Permᴰ qs rs
      → Rearranges ps rs
  Rearranges-Perm ps qs rs (zs, i, π) p = (zs, i, Permᴰ.trans π p)

  unless_some :
      (rs : List ProfileEvaluationResult) → is_nil rs ≡ false → unless_empty fl rs ≡ some rs
  unless_some [] n = cc n
  unless_some (r ∷ rs) n = refl

  map-nil : {A B : Type 0} (f : A → B) (xs : List A) → is_nil (map f xs) ≡ is_nil xs
  map-nil f [] = refl
  map-nil f (x ∷ xs) = refl

  created :
      (qs : ConfProfiles)
      → is_nil qs ≡ false
      → Distinct key qs
      → create_device_profiles fl qs ≡ some (map (profile_of fl) qs)
  unfolding create_device_profiles
  created [] n d = cc n
  created (q ∷ qs) n d =
      ap (present fl) (create_profiles-All fl (q ∷ qs) [] d (none_held (q ∷ qs) [] refl))

  -- Where each expression of a configuration parses and no two of its profiles have one name, and
  -- `qs` is the configuration in the order in which its maps are ranged over, `range` the order in
  -- which `SetProfiles` ranges over the device's profiles.
  pub evaluate_ranged :
      (ps qs : ConfProfiles) (range : DeviceProfiles fl → DeviceProfiles fl)
      → is_nil ps ≡ false
      → Rearranges ps qs
      → ((ds : DeviceProfiles fl) → Permᴰ ds (range ds))
      → Distinct key ps
      → All (λ p. All (Parses fl) p.1) ps
      → (ds : DeviceProfiles fl) × (rs : List ProfileEvaluationResult) × (create_device_profiles fl
            qs
          ≡ some ds)
        × (evaluate_all fl metrics (set_profiles fl (range ds)) ≡ some rs)
        × SameResults (profile_results fl metrics ps) rs
  unfolding evaluate_all set_profiles
  evaluate_ranged ps qs range n r law d h =
      let ds = map (profile_of fl) qs in
      let evaluated =
        λ (es : DeviceProfiles fl). map (evaluate_profile fl metrics) (set_profiles fl es) in
      let some_qs : is_nil qs ≡ false = sym (Rearranges-nil ps qs r) ∙ n in
      let order : Permᴰ (evaluated ds) (evaluated (range ds)) =
        map-Perm (evaluate_profile fl metrics) (map-Perm (evaluator_of fl) (law ds)) in
      let results = results-All fl metrics qs (Rearranges-All (Parses fl) ps qs r h) in
      let some_rs : is_nil (evaluated (range ds)) ≡ false =
        sym (nil-Perm order)
        ∙ map-nil (evaluate_profile fl metrics) (map (evaluator_of fl) ds)
        ∙ map-nil (evaluator_of fl) ds
        ∙ map-nil (profile_of fl) qs
        ∙ some_qs in
      (
        ds,
        evaluated (range ds),
        created qs some_qs (Rearranges-Distinct ps qs r d),
        unless_some (evaluated (range ds)) some_rs,
        Rearranges-Perm _ (map as_pair (profile_results fl metrics qs)) _
            (profile_results-Same ps qs r)
            (subst (λ t. Permᴰ (map as_pair t) (map as_pair (evaluated (range ds)))) results
              (map-Perm as_pair order)),
      )
