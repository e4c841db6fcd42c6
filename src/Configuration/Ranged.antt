-- ===== src/Configuration/Ranged.antt =====
-- Maps that are ranged over in another order, and what keeps.
use mathlib.Core.List.{Permᴰ}
use flotta_device_worker_ng.Base.{
  ◌≡◌, refl, sym, ap, ◌∙◌, subst, Bool, true, false, ◌||◌, List, [], ◌∷◌, map, Bytes, All, str_eq,
  str_eq_iff, arith,
}
use flotta_device_worker_ng.Scheduler.Util.Laws.{has, Distinct}
use flotta_device_worker_ng.Configuration.Maps.{key}

-- Pairs of the same keys in the same order, with the elements of each in another order.
abbrev pub Inner : {A : Type 0} → List (Bytes × List A) → List (Bytes × List A) → Type 0
Inner [] [] = Unit {0}
Inner [] (q ∷ qs) = ⊥
Inner (p ∷ ps) [] = ⊥
Inner (p ∷ ps) (q ∷ qs) = (p.0 ≡ q.0) × Permᴰ p.1 q.1 × Inner ps qs

-- Maps to lists, or to maps, that have the same pairs: the inner and the outer ones are ranged over in
-- any order.
abbrev pub Rearranges : {A : Type 0} → List (Bytes × List A) → List (Bytes × List A) → Type 0
Rearranges {A} ps qs = (zs : List (Bytes × List A)) × Inner ps zs × Permᴰ zs qs

module _ {A B : Type 0} (f : A → B) where
  pub map-Perm : {xs ys : List A} → Permᴰ xs ys → Permᴰ (map f xs) (map f ys)
  map-Perm Permᴰ.nil = Permᴰ.nil
  map-Perm (Permᴰ.cons e p) = Permᴰ.cons (ap f e) (map-Perm p)
  map-Perm (Permᴰ.swap e g) = Permᴰ.swap (ap f e) (ap f g)
  map-Perm (Permᴰ.trans p q) = Permᴰ.trans (map-Perm p) (map-Perm q)

module _ {A : Type 0} (id : A → Bytes) where
  has-Perm : (k : Bytes) {xs ys : List A} → Permᴰ xs ys → has id k xs ≡ has id k ys
  unfolding has
  has-Perm k Permᴰ.nil = refl
  has-Perm k (Permᴰ.cons {a} {b} {l₁} {l₂} e p) =
      ap (λ x. str_eq (id x) k || has id k l₁) e ∙ ap (λ c. str_eq (id b) k || c) (has-Perm k p)
  has-Perm k (Permᴰ.swap {a} {b} {a'} {b'} {l} e g) =
      ground (arith, ap (λ x. str_eq (id x) k) e, ap (λ x. str_eq (id x) k) g)
  has-Perm k (Permᴰ.trans p q) = has-Perm k p ∙ has-Perm k q

  swapped : (a b : A) (l : List A) → Distinct id (a ∷ b ∷ l) → Distinct id (b ∷ a ∷ l)
  unfolding has
  swapped a b l (n, (m, d)) = (
    ground (arith, n, m, str_eq_iff (id a) (id b), str_eq_iff (id b) (id a)),
    (ground (arith, n), d),
  )

  Distinct-Perm : {xs ys : List A} → Permᴰ xs ys → Distinct id xs → Distinct id ys
  unfolding has
  Distinct-Perm Permᴰ.nil d = tt
  Distinct-Perm (Permᴰ.cons {a} {b} {l₁} {l₂} e p) d =
      (sym (has-Perm (id b) p) ∙ ap (λ x. has id (id x) l₁) (sym e) ∙ d.0, Distinct-Perm p d.1)
  Distinct-Perm (Permᴰ.swap {a} {b} {a'} {b'} {l} e g) d =
      subst (λ x. Distinct id (x ∷ b' ∷ l)) g
        (subst (λ y. Distinct id (b ∷ y ∷ l)) e (swapped a b l d))
  Distinct-Perm (Permᴰ.trans p q) d = Distinct-Perm q (Distinct-Perm p d)

All-Perm : {A : Type 0} (P : A → Type 0) {xs ys : List A} → Permᴰ xs ys → All P xs → All P ys
All-Perm P Permᴰ.nil a = tt
All-Perm P (Permᴰ.cons e p) a = (subst P e a.0, All-Perm P p a.1)
All-Perm P (Permᴰ.swap e g) a = (subst P g a.1.0, (subst P e a.0, a.1.1))
All-Perm P (Permᴰ.trans p q) a = All-Perm P q (All-Perm P p a)

module _ {A : Type 0} where
  Inner-has :
      (k : Bytes) (ps qs : List (Bytes × List A)) → Inner ps qs → has key k ps ≡ has key k qs
  unfolding has
  Inner-has k [] [] i = refl
  Inner-has k [] (q ∷ qs) i = absurd i
  Inner-has k (p ∷ ps) [] i = absurd i
  Inner-has k (p ∷ ps) (q ∷ qs) (e, π, i) =
      ap (λ n. str_eq n k || has key k ps) e ∙ ap (λ b. str_eq q.0 k || b) (Inner-has k ps qs i)

  Inner-Distinct : (ps qs : List (Bytes × List A)) → Inner ps qs → Distinct key ps → Distinct key qs
  Inner-Distinct [] [] i d = tt
  Inner-Distinct [] (q ∷ qs) i d = absurd i
  Inner-Distinct (p ∷ ps) [] i d = absurd i
  Inner-Distinct (p ∷ ps) (q ∷ qs) (e, π, i) d = (
    sym (Inner-has q.0 ps qs i) ∙ ap (λ n. has key n ps) (sym e) ∙ d.0,
    Inner-Distinct ps qs i d.1,
  )

  Inner-All :
      (P : A → Type 0) (ps qs : List (Bytes × List A))
      → Inner ps qs
      → All (λ p. All P p.1) ps
      → All (λ p. All P p.1) qs
  Inner-All P [] [] i a = tt
  Inner-All P [] (q ∷ qs) i a = absurd i
  Inner-All P (p ∷ ps) [] i a = absurd i
  Inner-All P (p ∷ ps) (q ∷ qs) (e, π, i) a = (All-Perm P π a.0, Inner-All P ps qs i a.1)

  pub Rearranges-Distinct :
      (ps qs : List (Bytes × List A)) → Rearranges ps qs → Distinct key ps → Distinct key qs
  Rearranges-Distinct ps qs (zs, i, π) d = Distinct-Perm key π (Inner-Distinct ps zs i d)

  pub Rearranges-All :
      (P : A → Type 0) (ps qs : List (Bytes × List A))
      → Rearranges ps qs
      → All (λ p. All P p.1) ps
      → All (λ p. All P p.1) qs
  Rearranges-All P ps qs (zs, i, π) a = All-Perm (λ p. All P p.1) π (Inner-All P ps zs i a)

abbrev pub is_nil : {A : Type 0} → List A → Bool
is_nil [] = true
is_nil (x ∷ xs) = false

pub nil-Perm : {A : Type 0} {xs ys : List A} → Permᴰ xs ys → is_nil xs ≡ is_nil ys
nil-Perm Permᴰ.nil = refl
nil-Perm (Permᴰ.cons e p) = refl
nil-Perm (Permᴰ.swap e g) = refl
nil-Perm (Permᴰ.trans p q) = nil-Perm p ∙ nil-Perm q

Inner-nil : {A : Type 0} (ps qs : List (Bytes × List A)) → Inner ps qs → is_nil ps ≡ is_nil qs
Inner-nil [] [] i = refl
Inner-nil [] (q ∷ qs) i = absurd i
Inner-nil (p ∷ ps) [] i = absurd i
Inner-nil (p ∷ ps) (q ∷ qs) i = refl

pub Rearranges-nil :
    {A : Type 0} (ps qs : List (Bytes × List A)) → Rearranges ps qs → is_nil ps ≡ is_nil qs
Rearranges-nil ps qs (zs, i, π) = Inner-nil ps zs i ∙ nil-Perm π

module _ {A B : Type 0} (f : List A → List B)
    (keeps : (xs ys : List A) → Permᴰ xs ys → Permᴰ (f xs) (f ys)) where
  abbrev pub under : Bytes × List A → Bytes × List B
  under p = (p.0, f p.1)

  Inner-map : (ps qs : List (Bytes × List A)) → Inner ps qs → Inner (map under ps) (map under qs)
  Inner-map [] [] i = tt
  Inner-map [] (q ∷ qs) i = absurd i
  Inner-map (p ∷ ps) [] i = absurd i
  Inner-map (p ∷ ps) (q ∷ qs) (e, π, i) = (e, keeps p.1 q.1 π, Inner-map ps qs i)

  pub Rearranges-map :
      (ps qs : List (Bytes × List A)) → Rearranges ps qs → Rearranges (map under ps) (map under qs)
  Rearranges-map ps qs (zs, i, π) = (map under zs, Inner-map ps zs i, map-Perm under π)
