-- ===== src/Interpreter/Lexer/Loops.antt =====
-- The lexer's offsets against the text that is left, and its loops.
use flotta_device_worker_ng.Base.{
  ℕ, zero, suc, ◌+◌, ◌-◌, ◌≤◌, ◌<◌, ◌≡◌, refl, sym, ◌∙◌, ap, ap₂, Bool, true, false, inl, inr,
  Bool-cases, [], ◌∷◌, ◌++◌, ◌==◌, if◌then◌else◌, length, drop, head_or, tail, head_or-drop,
  tail-drop, length-drop, take_while, drop_while, Bytes, arith, append_assoc, append-nil,
}
use flotta_device_worker_ng.Interpreter.Lexer.{Lexer, next, skip, collect, is_numeric}

-- The text from the current character on.
abbrev pub rest : Lexer → Bytes
rest l = drop (l.offset - 1) l.src

-- `ch` is the first byte of what is left, and 0 where nothing is. Over an empty source the offset is 0.
pub record IsValid (l : Lexer) : Type 0 where
  pub started : (l.ch == 0) ≡ false → 1 ≤ l.offset
  pub bounded : l.offset ≤ length l.src + 1
  pub current : l.ch ≡ head_or 0 (rest l)

-- Behind a character that is not 0, `next` stands on the rest of the text.
pub record Advances (l m : Lexer) : Type 0 where
  pub same : m.src ≡ l.src
  pub ahead : m.offset ≡ l.offset + 1
  pub valid : IsValid m
  pub split : rest l ≡ l.ch ∷ rest m

rest_split : (c : ℕ) (xs : Bytes) → c ≡ head_or 0 xs → (c == 0) ≡ false → xs ≡ c ∷ tail xs
rest_split c [] e h = ground arith
rest_split c (x ∷ xs) e h = ground arith

drop_all : (n : ℕ) (xs : Bytes) → length xs ≤ n → drop n xs ≡ []
drop_all zero [] h = refl
drop_all zero (x ∷ xs) h = absurd (omega arith)
drop_all (suc n) [] h = refl
drop_all (suc n) (x ∷ xs) h = drop_all n xs (omega arith)

-- The character that `next` loads heads what is left.
next-IsValid : (l : Lexer) → IsValid l → (l.ch == 0) ≡ false → IsValid (next l)
unfolding next
next-IsValid l v h = ground (
  arith,
  drop_all l.offset l.src,
  head_or-drop l.offset l.src 0,
  ap length (rest_split l.ch (rest l) v.current h),
  length-drop (l.offset - 1) l.src,
)

next-same : (l : Lexer) → (next l).src ≡ l.src
unfolding next
next-same l = ground arith

next-ahead : (l : Lexer) → IsValid l → (l.ch == 0) ≡ false → (next l).offset ≡ l.offset + 1
unfolding next
next-ahead l v h = ground arith

rest-next :
    (l : Lexer) → IsValid l → (l.ch == 0) ≡ false → rest (next l) ≡ drop (suc (l.offset - 1)) l.src
rest-next l v h =
    ap₂ (λ n xs. drop n xs) {y = suc (l.offset - 1)} (omega (arith, next-ahead l v h, v.started h))
      (next-same l)

next-split : (l : Lexer) → IsValid l → (l.ch == 0) ≡ false → rest l ≡ l.ch ∷ rest (next l)
next-split l v h =
    rest_split l.ch (rest l) v.current h
    ∙ ap (λ xs. l.ch ∷ xs) (tail-drop (l.offset - 1) l.src ∙ sym (rest-next l v h))

pub next-Advances : (l : Lexer) → IsValid l → (l.ch == 0) ≡ false → Advances l (next l)
next-Advances l v h = record {
  same = next-same l;
  ahead = next-ahead l v h;
  valid = next-IsValid l v h;
  split = next-split l v h;
}

-- The lexer that a loop over the characters in `p` leaves.
pub record Skips (p : ℕ → Bool) (l m : Lexer) : Type 0 where
  pub same : m.src ≡ l.src
  pub ahead : m.offset ≡ l.offset + length (take_while p (rest l))
  pub valid : IsValid m
  pub left : rest m ≡ drop_while p (rest l)

stop_while :
    (p : ℕ → Bool) (xs : Bytes)
    → p (head_or 0 xs) ≡ false
    → (take_while p xs ≡ []) × (drop_while p xs ≡ xs)
stop_while p [] h = (refl, refl)
stop_while p (x ∷ xs) h = (rw h, rw h)

-- A loop that stops at once.
stop : (p : ℕ → Bool) (l : Lexer) → IsValid l → p l.ch ≡ false → Skips p l l
stop p l v h =
    let (none_taken, all_left) = stop_while p (rest l) (rw v.current at h) in
    record {
      same = refl;
      ahead = omega (arith, ap length none_taken);
      valid = v;
      left = sym all_left;
    }

pub nonzero : (p : ℕ → Bool) (c : ℕ) → p 0 ≡ false → p c ≡ true → (c == 0) ≡ false
nonzero p zero z h = cc
nonzero p (suc c) z h = ground arith

-- A loop that takes a step.
step :
    (p : ℕ → Bool) (l m : Lexer)
    → p l.ch ≡ true
    → Advances l (next l)
    → Skips p (next l) m
    → Skips p l m
step p l m h a s = record {
  same = s.same ∙ a.same;
  ahead = rw (a.split, h) (omega (arith, s.ahead, a.ahead));
  valid = s.valid;
  left = s.left ∙ rw (a.split, h) refl;
}

-- The loop runs while its test holds, if that fails at 0 and the fuel exceeds what is left.
pub skip-Skips :
    (p : ℕ → Bool) (f : ℕ) (l : Lexer)
    → p 0 ≡ false
    → IsValid l
    → length (rest l) < f
    → Skips p l (skip p f l)
unfolding skip
skip-Skips p zero l z v h = absurd (omega arith)
skip-Skips p (suc f) l z v h = elim (Bool-cases (p l.ch)) [
  | inl go ↦
      let a = next-Advances l v (nonzero p l.ch z go) in
      rw (go, skip)
        (step p l (skip p f (next l)) go a
          (skip-Skips p f (next l) z a.valid (omega (arith, ap length a.split))))
  | inr halt ↦ rw (halt, skip) (stop p l v halt)
]

-- How many dots a text has.
abbrev pub dots_in : Bytes → ℕ
dots_in [] = 0
dots_in (c ∷ r) = (if c == b'.' then 1 else 0) + dots_in r

-- Collecting a number is skipping it, and keeping its characters and the count of its dots.
collected :
    (c : ℕ) (chars : Bytes) (dots : ℕ) (xs r : Bytes) (m : Lexer)
    → is_numeric c ≡ true
    → xs ≡ c ∷ r
    → ◌≡◌ {A = Bytes × ℕ × Lexer}
        (
          (chars ++ c ∷ []) ++ take_while is_numeric r,
          (if c == b'.' then dots + 1 else dots) + dots_in (take_while is_numeric r),
          m,
        )
        (chars ++ take_while is_numeric xs, dots + dots_in (take_while is_numeric xs), m)
collected c chars dots xs r m h e = rw (e, h, append_assoc) (ground arith)

pub collect-eq-skip :
    (f : ℕ) (chars : Bytes) (dots : ℕ) (l : Lexer)
    → IsValid l
    → length (rest l) < f
    → collect f chars dots l ≡ (
      chars ++ take_while is_numeric (rest l),
      dots + dots_in (take_while is_numeric (rest l)),
      skip is_numeric f l,
    )
unfolding collect skip
collect-eq-skip zero chars dots l v h = absurd (omega arith)
collect-eq-skip (suc f) chars dots l v h = elim (Bool-cases (is_numeric l.ch)) [
  | inl go ↦
      let a = next-Advances l v (nonzero is_numeric l.ch refl go) in
      let fewer : length (rest (next l)) < f = omega (arith, ap length a.split) in
      let dots' : ℕ = if l.ch == b'.' then dots + 1 else dots in
      rw (go, collect, skip)
        (collect-eq-skip f (chars ++ l.ch ∷ []) dots' (next l) a.valid fewer
          ∙ collected l.ch chars dots (rest l) (rest (next l)) (skip is_numeric f (next l)) go
              a.split)
  | inr halt ↦
      rw
        (halt, collect, skip, (stop_while is_numeric (rest l) (rw v.current at halt)).0, append-nil)
        (ground arith)
]
