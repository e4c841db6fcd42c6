-- ===== src/Entity/Configuration/Sorted.antt =====
-- Sorting by a key forgets the order in which the elements came.
use mathlib.Core.List.{Permᴰ, Memᴰ}
use flotta_device_worker_ng.Base.{
  ◌≡◌, refl, ap, ap₂, ◌∙◌, sym, true, false, List, [], ◌∷◌, Bytes, arith, Bool-cases, inl, inr,
}
use flotta_device_worker_ng.Entity.Configuration.{str_lt, insert_sorted, sort_slice}

str_lt_asym : (a b : Bytes) → str_lt a b ≡ true → str_lt b a ≡ false
unfolding str_lt
str_lt_asym [] [] h = refl
str_lt_asym [] (y ∷ ys) h = refl
str_lt_asym (x ∷ xs) [] h = cc
str_lt_asym (x ∷ xs) (y ∷ ys) h = ground (arith, str_lt_asym xs ys)

str_lt_trans : (a b c : Bytes) → str_lt a b ≡ true → str_lt b c ≡ true → str_lt a c ≡ true
unfolding str_lt
str_lt_trans [] [] c g h = cc
str_lt_trans [] (y ∷ ys) [] g h = cc
str_lt_trans [] (y ∷ ys) (z ∷ zs) g h = refl
str_lt_trans (x ∷ xs) [] c g h = cc
str_lt_trans (x ∷ xs) (y ∷ ys) [] g h = cc
str_lt_trans (x ∷ xs) (y ∷ ys) (z ∷ zs) g h = ground (arith, str_lt_trans xs ys zs)

str_lt_total : (a b : Bytes) → str_lt a b ≡ false → str_lt b a ≡ false → a ≡ b
unfolding str_lt
str_lt_total [] [] g h = refl
str_lt_total [] (y ∷ ys) g h = cc
str_lt_total (x ∷ xs) [] g h = cc
str_lt_total (x ∷ xs) (y ∷ ys) g h = ground (arith, str_lt_total xs ys)

mem-Perm : {A : Type 0} {x : A} {l k : List A} → Permᴰ l k → Memᴰ x k → Memᴰ x l
mem-Perm Permᴰ.nil m = m
mem-Perm (Permᴰ.cons e p) (Memᴰ.head f) = Memᴰ.head (f ∙ sym e)
mem-Perm (Permᴰ.cons e p) (Memᴰ.tail m) = Memᴰ.tail (mem-Perm p m)
mem-Perm (Permᴰ.swap e f) (Memᴰ.head g) = Memᴰ.tail (Memᴰ.head (g ∙ sym f))
mem-Perm (Permᴰ.swap e f) (Memᴰ.tail (Memᴰ.head g)) = Memᴰ.head (g ∙ sym e)
mem-Perm (Permᴰ.swap e f) (Memᴰ.tail (Memᴰ.tail m)) = Memᴰ.tail (Memᴰ.tail m)
mem-Perm (Permᴰ.trans p q) m = mem-Perm p (mem-Perm q m)

module _ {A : Type 0} (key : A → Bytes) where
  -- Two elements of one key are the same.
  abbrev pub SameByKey : List A → Type 0
  SameByKey l = (x y : A) → Memᴰ x l → Memᴰ y l → key x ≡ key y → x ≡ y

  insert_sorted_lt :
      (x y : A) (l : List A)
      → str_lt (key x) (key y) ≡ true
      → insert_sorted key x (insert_sorted key y l) ≡ insert_sorted key y (insert_sorted key x l)
  unfolding insert_sorted
  insert_sorted_lt x y [] h = ground (arith, h, str_lt_asym (key x) (key y))
  insert_sorted_lt x y (z ∷ l) h = ground (
    arith,
    h,
    str_lt_asym (key x) (key y),
    str_lt_trans (key z) (key x) (key y),
    insert_sorted_lt x y l h,
  )

  insert_sorted_comm :
      (x y : A) (l : List A)
      → (key x ≡ key y → x ≡ y)
      → insert_sorted key x (insert_sorted key y l) ≡ insert_sorted key y (insert_sorted key x l)
  insert_sorted_comm x y l same = elim (Bool-cases (str_lt (key x) (key y))) [
    | inl e ↦ insert_sorted_lt x y l e
    | inr e ↦ elim (Bool-cases (str_lt (key y) (key x))) [
      | inl f ↦ sym (insert_sorted_lt y x l f)
      | inr f ↦
          ap₂ (λ a b. insert_sorted key a (insert_sorted key b l))
            (same (str_lt_total (key x) (key y) e f))
            (sym (same (str_lt_total (key x) (key y) e f)))
    ]
  ]

  -- Lists with the same elements, in which two elements of one key are the same, are sorted alike.
  pub sort_slice-Perm :
      {l k : List A} → Permᴰ l k → SameByKey l → sort_slice key l ≡ sort_slice key k
  unfolding sort_slice
  sort_slice-Perm Permᴰ.nil s = refl
  sort_slice-Perm (Permᴰ.cons e p) s =
      ap₂ (insert_sorted key) e (sort_slice-Perm p (λ x y m n. s x y (Memᴰ.tail m) (Memᴰ.tail n)))
  sort_slice-Perm (Permᴰ.swap {a} {b} {a'} {b'} {l} e f) s =
      insert_sorted_comm a b (sort_slice key l)
        (s a b (Memᴰ.head refl) (Memᴰ.tail (Memᴰ.head refl)))
      ∙ ap₂ (λ x y. insert_sorted key x (insert_sorted key y (sort_slice key l))) f e
  sort_slice-Perm (Permᴰ.trans p q) s =
      sort_slice-Perm p s ∙ sort_slice-Perm q (λ x y m n. s x y (mem-Perm p m) (mem-Perm p n))

  -- No element stands before one of a smaller key.
  abbrev Front : A → List A → Type 0
  Front x [] = Unit {0}
  Front x (y ∷ l) = str_lt (key y) (key x) ≡ false

  abbrev Chain : List A → Type 0
  Chain [] = Unit {0}
  Chain (x ∷ l) = Front x l × Chain l

  insert_sorted-Chain : (x : A) (l : List A) → Chain l → Chain (insert_sorted key x l)
  unfolding insert_sorted
  insert_sorted-Chain x [] c = (tt, tt)
  insert_sorted-Chain x (y ∷ []) c = ground (arith, str_lt_asym (key y) (key x))
  insert_sorted-Chain x (y ∷ z ∷ l) c =
      ground (arith, c, str_lt_asym (key y) (key x), insert_sorted-Chain x (z ∷ l) c.1)

  sort_slice-Chain : (l : List A) → Chain (sort_slice key l)
  unfolding sort_slice
  sort_slice-Chain [] = tt
  sort_slice-Chain (x ∷ l) = insert_sorted-Chain x (sort_slice key l) (sort_slice-Chain l)

  insert_sorted-Front : (x : A) (l : List A) → Front x l → insert_sorted key x l ≡ x ∷ l
  unfolding insert_sorted
  insert_sorted-Front x [] f = refl
  insert_sorted-Front x (y ∷ l) f = rw f refl

  Chain-sort_slice : (l : List A) → Chain l → sort_slice key l ≡ l
  unfolding sort_slice
  Chain-sort_slice [] c = refl
  Chain-sort_slice (x ∷ l) c =
      ap (insert_sorted key x) (Chain-sort_slice l c.1) ∙ insert_sorted-Front x l c.0

  -- Sorting a sorted list changes nothing.
  pub sort_slice_idem : (l : List A) → sort_slice key (sort_slice key l) ≡ sort_slice key l
  sort_slice_idem l = Chain-sort_slice (sort_slice key l) (sort_slice-Chain l)
