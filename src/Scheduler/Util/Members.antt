-- ===== src/Scheduler/Util/Members.antt =====
-- The members of lists, by their identifiers.
use mathlib.Core.List.{Memᴰ}
use flotta_device_worker_ng.Base.{
  ◌≡◌, refl, sym, ap, ◌∙◌, subst, true, List, [], ◌∷◌, ◌++◌, All, Bool-cases, inl, inr, arith,
  Bytes, str_eq, str_eq_iff,
}
use flotta_device_worker_ng.Scheduler.Util.Laws.{has, Distinct}

-- An element of an identifier, among elements that all have two properties.
pub All-has :
    {A : Type 0} (id : A → Bytes) (P Q : A → Type 0) (k : Bytes) (xs : List A)
    → All P xs
    → All Q xs
    → has id k xs ≡ true
    → (x : A) × (id x ≡ k) × P x × Q x
unfolding has
All-has id P Q k [] h g e = cc
All-has id P Q k (x ∷ xs) h g e = elim (Bool-cases (str_eq (id x) k)) [
  | inl same ↦ (x, (str_eq_iff (id x) k).0 same, h.0, g.0)
  | inr differs ↦ All-has id P Q k xs h.1 g.1 (ground arith)
]

pub All-Mem : {A : Type 0} (P : A → Type 0) (x : A) (xs : List A) → All P xs → Memᴰ x xs → P x
All-Mem P x _ a (Memᴰ.head e) = subst P (sym e) a.0
All-Mem P x _ a (Memᴰ.tail m) = All-Mem P x _ a.1 m

All-tail :
    {A : Type 0} (x : A) (xs ys : List A) → All (λ y. Memᴰ y xs) ys → All (λ y. Memᴰ y (x ∷ xs)) ys
All-tail x xs [] a = tt
All-tail x xs (y ∷ ys) a = (Memᴰ.tail a.0, All-tail x xs ys a.1)

pub All-members : {A : Type 0} (xs : List A) → All (λ x. Memᴰ x xs) xs
All-members [] = tt
All-members (x ∷ xs) = (Memᴰ.head refl, All-tail x xs xs (All-members xs))

pub has-Mem :
    {A : Type 0} (id : A → Bytes) (x : A) (xs : List A) → Memᴰ x xs → has id (id x) xs ≡ true
unfolding has
has-Mem id x [] m = elim m [ ]
has-Mem id x (y ∷ ys) (Memᴰ.head e) = ground (arith, (str_eq_iff (id y) (id x)).1 (ap id (sym e)))
has-Mem id x (y ∷ ys) (Memᴰ.tail m) = ground (arith, has-Mem id x ys m)

-- Of elements with an identifier of their own each, one identifier is one element.
pub one-Mem :
    {A : Type 0} (id : A → Bytes) (xs : List A) (x y : A)
    → Distinct id xs
    → Memᴰ x xs
    → Memᴰ y xs
    → id x ≡ id y
    → x ≡ y
one-Mem id [] x y d m n s = elim m [ ]
one-Mem id (z ∷ zs) x y d (Memᴰ.head e) (Memᴰ.head f) s = e ∙ sym f
one-Mem id (z ∷ zs) x y d (Memᴰ.head e) (Memᴰ.tail m) s =
    let held = has-Mem id y zs m in cc (d.0, held, ap (λ k. has id k zs) (ap id (sym e) ∙ s))
one-Mem id (z ∷ zs) x y d (Memᴰ.tail m) (Memᴰ.head e) s =
    let held = has-Mem id x zs m in cc (d.0, held, ap (λ k. has id k zs) (s ∙ ap id e))
one-Mem id (z ∷ zs) x y d (Memᴰ.tail m) (Memᴰ.tail n) s = one-Mem id zs x y d.1 m n s

pub Mem-append : {A : Type 0} (x : A) (xs ys : List A) → Memᴰ x xs → Memᴰ x (xs ++ ys)
Mem-append x _ ys (Memᴰ.head e) = Memᴰ.head e
Mem-append x (z ∷ xs) ys (Memᴰ.tail m) = Memᴰ.tail (Mem-append x xs ys m)

pub All-mono :
    {A : Type 0} (P Q : A → Type 0) (xs : List A) → ((x : A) → P x → Q x) → All P xs → All Q xs
All-mono P Q [] f a = tt
All-mono P Q (x ∷ xs) f a = (f x a.0, All-mono P Q xs f a.1)
