-- ===== src/Scheduler/Util/Laws.antt =====
-- What `substract` returns, by the identifiers of its arguments.
use flotta_device_worker_ng.Base.{
  ◌≡◌, refl, Bool, false, not, ◌&&◌, ◌||◌, List, [], ◌∷◌, none, Bytes, str_eq, str_eq_iff, lookup,
  insert, lookup-insert, arith, All, Bool-cases, inl, inr,
}
use flotta_device_worker_ng.Scheduler.Util.{is_some, fill, missing, substract}

module _ {A : Type 0} (id : A → Bytes) where
  -- Whether a list has an element of an identifier.
  unfoldable pub has : Bytes → List A → Bool
  has k [] = false
  has k (x ∷ xs) = str_eq (id x) k || has k xs

  -- No two elements have one identifier.
  abbrev pub Distinct : List A → Type 0
  Distinct [] = Unit {0}
  Distinct (x ∷ xs) = (has (id x) xs ≡ false) × Distinct xs

  -- A map from identifiers: each key is its element's, and stands once.
  abbrev Keyed : List (Bytes × A) → Type 0
  Keyed [] = Unit {0}
  Keyed ((k, v) ∷ m) = (k ≡ id v) × (lookup k m ≡ none) × Keyed m

  insert-Keyed : (v : A) (m : List (Bytes × A)) → Keyed m → Keyed (insert (id v) v m)
  unfolding insert lookup
  insert-Keyed v [] h = (refl, refl, tt)
  insert-Keyed v ((j, w) ∷ m) h = ground (
    arith,
    str_eq_iff j (id v),
    str_eq_iff (id v) j,
    lookup-insert (id v) j v m,
    insert-Keyed v m h.2,
  )

  lookup-insert_some :
      (k : Bytes) (v : A) (m : List (Bytes × A))
      → is_some (lookup k (insert (id v) v m)) ≡ str_eq (id v) k || is_some (lookup k m)
  lookup-insert_some k v m = rw (lookup-insert (id v) k v m) (ground arith)

module _ {S T : Type 0} (id_s : S → Bytes) (id_t : T → Bytes) where
  -- What the two maps hold once they are filled.
  fill-lookup :
      (a : List S) (b : List T) (m1 : List (Bytes × S)) (m2 : List (Bytes × T)) (k : Bytes)
      → let r = fill id_s id_t a b m1 m2 in
        (is_some (lookup k r.0) ≡ has id_s k a || is_some (lookup k m1))
        × (is_some (lookup k r.1) ≡ has id_t k b || is_some (lookup k m2))
  unfolding fill has
  fill-lookup [] [] m1 m2 k = (refl, refl)
  fill-lookup (x ∷ a) [] m1 m2 k =
      ground (arith, fill-lookup a [] (insert (id_s x) x m1) m2 k, lookup-insert_some id_s k x m1)
  fill-lookup [] (y ∷ b) m1 m2 k =
      ground (arith, fill-lookup [] b m1 (insert (id_t y) y m2) k, lookup-insert_some id_t k y m2)
  fill-lookup (x ∷ a) (y ∷ b) m1 m2 k = ground (
    arith,
    fill-lookup a b (insert (id_s x) x m1) (insert (id_t y) y m2) k,
    lookup-insert_some id_s k x m1,
    lookup-insert_some id_t k y m2,
  )

  fill-Keyed :
      (a : List S) (b : List T) (m1 : List (Bytes × S)) (m2 : List (Bytes × T))
      → Keyed id_s m1
      → Keyed id_s (fill id_s id_t a b m1 m2).0
  unfolding fill
  fill-Keyed [] [] m1 m2 h = h
  fill-Keyed (x ∷ a) [] m1 m2 h = fill-Keyed a [] _ m2 (insert-Keyed id_s x m1 h)
  fill-Keyed [] (y ∷ b) m1 m2 h = fill-Keyed [] b m1 _ h
  fill-Keyed (x ∷ a) (y ∷ b) m1 m2 h = fill-Keyed a b _ _ (insert-Keyed id_s x m1 h)

  missing-has :
      (m1 : List (Bytes × S)) (m2 : List (Bytes × T)) (k : Bytes)
      → Keyed id_s m1
      → has id_s k (missing id_s id_t m1 m2) ≡ is_some (lookup k m1) && not (is_some (lookup k m2))
  unfolding missing has lookup
  missing-has [] m2 k h = refl
  missing-has ((j, v) ∷ m1) m2 k h =
      ground (arith, missing-has m1 m2 k h.2, str_eq_iff j k, str_eq_iff (id_s v) k)

  missing-Distinct :
      (m1 : List (Bytes × S)) (m2 : List (Bytes × T))
      → Keyed id_s m1
      → Distinct id_s (missing id_s id_t m1 m2)
  unfolding missing
  missing-Distinct [] m2 h = tt
  missing-Distinct ((j, v) ∷ m1) m2 h =
      ground (arith, missing-Distinct m1 m2 h.2, missing-has m1 m2 (id_s v) h.2)

  -- An identifier is that of an element of the result exactly when an element of the first list has
  -- it and none of the second does, and no two elements of the result have one identifier.
  pub substract_lem :
      (a : List S) (b : List T)
      → ((k : Bytes) → has id_s k (substract id_s id_t a b) ≡ has id_s k a && not (has id_t k b))
        × Distinct id_s (substract id_s id_t a b)
  unfolding substract lookup
  substract_lem a b =
      let h : Keyed id_s (fill id_s id_t a b [] []).0 = fill-Keyed a b [] [] tt in
      (
        (λ k. ground (
          arith,
          fill-lookup a b [] [] k,
          missing-has (fill id_s id_t a b [] []).0 (fill id_s id_t a b [] []).1 k h,
        )),
        missing-Distinct _ (fill id_s id_t a b [] []).1 h,
      )

  -- What holds of each value of a map.
  abbrev Holds : (S → Type 0) → List (Bytes × S) → Type 0
  Holds P [] = Unit {0}
  Holds P ((k, v) ∷ m) = P v × Holds P m

  insert-Holds :
      (P : S → Type 0) (k : Bytes) (v : S) (m : List (Bytes × S))
      → P v
      → Holds P m
      → Holds P (insert k v m)
  unfolding insert
  insert-Holds P k v [] h n = (h, tt)
  insert-Holds P k v ((j, w) ∷ m) h n = elim (Bool-cases (str_eq j k)) [
    | inl e ↦ rw e (h, n.1)
    | inr e ↦ rw e (n.0, insert-Holds P k v m h n.1)
  ]

  fill-Holds :
      (P : S → Type 0) (a : List S) (b : List T) (m1 : List (Bytes × S)) (m2 : List (Bytes × T))
      → All P a
      → Holds P m1
      → Holds P (fill id_s id_t a b m1 m2).0
  unfolding fill
  fill-Holds P [] [] m1 m2 h n = n
  fill-Holds P (x ∷ a) [] m1 m2 h n =
      fill-Holds P a [] _ m2 h.1 (insert-Holds P (id_s x) x m1 h.0 n)
  fill-Holds P [] (y ∷ b) m1 m2 h n = fill-Holds P [] b m1 _ h n
  fill-Holds P (x ∷ a) (y ∷ b) m1 m2 h n =
      fill-Holds P a b _ _ h.1 (insert-Holds P (id_s x) x m1 h.0 n)

  missing-All :
      (P : S → Type 0) (m1 : List (Bytes × S)) (m2 : List (Bytes × T))
      → Holds P m1
      → All P (missing id_s id_t m1 m2)
  unfolding missing
  missing-All P [] m2 h = tt
  missing-All P ((j, v) ∷ m1) m2 h = elim (Bool-cases (is_some (lookup j m2))) [
    | inl e ↦ rw e (missing-All P m1 m2 h.1)
    | inr e ↦ rw e (h.0, missing-All P m1 m2 h.1)
  ]

  -- What holds of each element of the first list holds of each of the difference.
  pub substract-All :
      (P : S → Type 0) (a : List S) (b : List T) → All P a → All P (substract id_s id_t a b)
  unfolding substract
  substract-All P a b h = missing-All P _ _ (fill-Holds P a b [] [] h tt)
