-- ===== src/Scheduler/Util.antt =====
-- internal/scheduler/util.go: the elements of one list whose identifier another does not have.
pub mod Laws
pub mod Members
use flotta_device_worker_ng.Base.{
  ℕ, zero, suc, ◌≡◌, refl, sym, ap, ◌∙◌, ◌↔◌, Bool, true, false, List, [], ◌∷◌, Option, none, some,
  if◌then◌else◌, Bytes, str_eq, str_eq_iff, str_eq_refl, lookup, insert, lookup-insert, Bool-cases,
  inl, inr, ◌⊎◌, All, arith,
}

abbrev pub is_some {ℓ} : {A : Type ℓ} → Option A → Bool
is_some none = false
is_some (some a) = true

module _ {S T : Type 0} (id_s : S → Bytes) (id_t : T → Bytes) where
  -- The loop over the index: round by round, while either list has an element, the maps `m1` and `m2`
  -- take it under its identifier. The number of rounds is the longer length.
  unfoldable pub fill :
      List S → List T → List (Bytes × S) → List (Bytes × T) → List (Bytes × S) × List (Bytes × T)
  fill [] [] m1 m2 = (m1, m2)
  fill (a ∷ as') [] m1 m2 = fill as' [] (insert (id_s a) a m1) m2
  fill [] (b ∷ bs) m1 m2 = fill [] bs m1 (insert (id_t b) b m2)
  fill (a ∷ as') (b ∷ bs) m1 m2 = fill as' bs (insert (id_s a) a m1) (insert (id_t b) b m2)

  -- The loop over `m1`, in the order in which it is ranged over.
  unfoldable pub missing : List (Bytes × S) → List (Bytes × T) → List S
  missing [] m2 = []
  missing ((id, v) ∷ m1) m2 =
      let rest = missing m1 m2 in if is_some (lookup id m2) then rest else v ∷ rest

  unfoldable pub substract : List S → List T → List S
  substract a b = let (m1, m2) = fill a b [] [] in missing m1 m2
