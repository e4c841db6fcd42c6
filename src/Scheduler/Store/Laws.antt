-- ===== src/Scheduler/Store/Laws.antt =====
-- The store as the list of its jobs.
use flotta_device_worker_ng.Base.{
  ℕ, zero, suc, ◌+◌, ◌-◌, ◌≤◌, ◌<◌, ◌≡◌, refl, sym, ap, ◌∙◌, ◌⊎◌, List, [], ◌∷◌, ◌++◌, none, some,
  if◌then◌else◌, length, length-append, length-drop, take, drop, Bytes, Bool-cases, inl, inr, arith,
}
use flotta_device_worker_ng.Scheduler.Store.{
  Heap, Store, jobs, has_id, index, remove_at, cut, delete, add,
}

-- The list without its first pointer to a job with an identifier.
unfoldable pub erase : Heap → Bytes → List ℕ → List ℕ
erase h k [] = []
erase h k (p ∷ ps) = if has_id h k p then ps else p ∷ erase h k ps

take-append : {A : Type 0} (xs ys : List A) → take (length xs) (xs ++ ys) ≡ xs
take-append [] ys = refl
take-append (x ∷ xs) ys = ap (λ t. x ∷ t) (take-append xs ys)

take-all : {A : Type 0} (xs : List A) → take (length xs) xs ≡ xs
take-all [] = refl
take-all (x ∷ xs) = ap (λ t. x ∷ t) (take-all xs)

length-take : {A : Type 0} (n : ℕ) (xs : List A) → n ≤ length xs → length (take n xs) ≡ n
length-take zero xs h = refl
length-take (suc n) [] h = absurd (omega arith)
length-take (suc n) (x ∷ xs) h = ap suc (length-take n xs (omega arith))

-- The slice lies within its array.
abbrev pub IsSlice : Store → Type 0
IsSlice s = s.len ≤ length s.array

-- `index` finds the place of the first, relative to the index that it begins with.
index_at :
    (h : Heap) (k : Bytes) (i : ℕ) (ps : List ℕ)
    → ((index h k i ps ≡ none) × (erase h k ps ≡ ps))
      ⊎ ((n : ℕ) × (index h k i ps ≡ some (i + n))
          × (n < length ps)
          × (remove_at n ps ≡ erase h k ps))
unfolding index erase
index_at h k i [] = inl (refl, refl)
index_at h k i (p ∷ ps) = elim (Bool-cases (has_id h k p)) [
  | inl e ↦ inr (0, rw e (ground arith), omega arith, rw e refl)
  | inr e ↦ elim (index_at h k (i + 1) ps) [
    | inl (none_found, same) ↦ inl (rw e none_found, rw e (ap (λ t. p ∷ t) same))
    | inr (n, found, within, rest) ↦
        inr (suc n, rw e (found ∙ ap some (omega arith)), omega arith, rw e (ap (λ t. p ∷ t) rest))
  ]
]

length-remove_at : (n : ℕ) (ps : List ℕ) → n < length ps → length (remove_at n ps) ≡ length ps - 1
length-remove_at n [] h = absurd (omega arith)
length-remove_at zero (p ∷ ps) h = omega arith
length-remove_at (suc n) (p ∷ ps) h = omega (arith, length-remove_at n ps (omega arith))

cut-jobs :
    (n : ℕ) (s : Store) (rest : List ℕ)
    → IsSlice s
    → n < length (jobs s)
    → remove_at n (jobs s) ≡ rest
    → (jobs (cut n s) ≡ rest) × IsSlice (cut n s) × (length (cut n s).array ≡ length s.array)
cut-jobs n s rest v within e =
    let full : length (jobs s) ≡ s.len = length-take s.len s.array v in
    let kept : length (remove_at n (jobs s)) ≡ s.len - 1 =
      omega (arith, length-remove_at n (jobs s) within, full) in
    let whole = length-append (remove_at n (jobs s)) (drop (s.len - 1) s.array) in
    (
      ap (λ m. take m (remove_at n (jobs s) ++ drop (s.len - 1) s.array)) (sym kept)
          ∙ take-append (remove_at n (jobs s)) (drop (s.len - 1) s.array)
          ∙ e,
      omega (arith, whole, kept),
      omega (arith, whole, kept, full, within, length-drop (s.len - 1) s.array, v),
    )

-- `Delete` removes the first job with the identifier, if there is one, and keeps the order of the
-- others. The array keeps its length, so a caller that ranges over a slice taken before still reads
-- as many cells.
pub jobs-delete :
    (h : Heap) (k : Bytes) (s : Store)
    → IsSlice s
    → (jobs (delete h k s) ≡ erase h k (jobs s))
      × IsSlice (delete h k s)
      × (length (delete h k s).array ≡ length s.array)
unfolding delete
jobs-delete h k s v = elim (index_at h k 0 (jobs s)) [
  | inl (none_found, same) ↦ rw none_found (sym same, v, refl)
  | inr (n, found, within, rest) ↦
      let at_n : index h k 0 (jobs s) ≡ some n = found ∙ ap some (omega arith) in
      rw at_n (cut-jobs n s (erase h k (jobs s)) v within rest)
]

-- `Add` puts the job behind the others.
pub jobs-add : (p : ℕ) (s : Store) → (jobs (add p s) ≡ jobs s ++ p ∷ []) × IsSlice (add p s)
unfolding add
jobs-add p s =
    let whole = length-append (jobs s) (p ∷ []) in
    (
      ap (λ m. take m (jobs s ++ p ∷ [])) {y = length (jobs s ++ p ∷ [])} (omega (arith, whole))
          ∙ take-all (jobs s ++ p ∷ []),
      omega (arith, whole),
    )
