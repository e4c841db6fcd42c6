-- ===== src/Base/Decimal.antt =====
-- Decimal numerals: what `strconv.FormatUint` prints and `strconv.Atoi` reads.
use Prim.Native.Nat.{ℕ, zero, suc, ◌+◌, ◌-◌, ◌*◌, ◌/◌, ◌%◌, ◌^◌, ◌≤◌, ◌<◌}
use mathlib.Core.Path.{◌≡◌}
use mathlib.Core.Logic.{◌≢◌, inl, inr}
use mathlib.Core.Bool.{◌||◌}
use mathlib.Core.List.{[], ◌∷◌, ◌++◌}
use mathlib.Core.Option.{Option, none, some}
use native.Mathlib.Omega.{arith}
use flotta_device_worker_ng.Base.Tests.{ltb, ltb→lt, if◌then◌else◌, Bool-cases}
use flotta_device_worker_ng.Base.Lists.{All}
use flotta_device_worker_ng.Base.Text.{Bytes}

-- The digits of a number, the last one behind the others, with one round for each but the last.
unfoldable pub digits : ℕ → ℕ → Bytes
digits zero n = (b'0' + n % 10) ∷ []
digits (suc rounds) n =
    let before = digits rounds (n / 10) in
    if ltb n 10 then (b'0' + n) ∷ [] else before ++ (b'0' + n % 10) ∷ []

-- A number of 64 bits has at most twenty digits.
unfoldable pub format : ℕ → Bytes
format n = digits 19 n

-- Below this number the rounds are enough.
abbrev bound : ℕ → ℕ
bound zero = 10
bound (suc rounds) = 10 * bound rounds

-- What the digits spell behind a number; `none` at another byte.
unfoldable pub read_digits : Bytes → ℕ → Option ℕ
read_digits [] n = some n
read_digits (c ∷ s) n =
    if ltb c b'0' || ltb b'9' c then none else read_digits s (n * 10 + (c - b'0'))

read_digits-append :
    (s t : Bytes) (n m : ℕ) → read_digits s n ≡ some m → read_digits (s ++ t) n ≡ read_digits t m
unfolding read_digits
read_digits-append [] t n m e = ground (arith, e)
read_digits-append (c ∷ s) t n m e =
    ground (arith, e, read_digits-append s t (n * 10 + (c - b'0')) m)

read_digits-digits : (rounds n : ℕ) → n < bound rounds → read_digits (digits rounds n) 0 ≡ some n
unfolding digits read_digits
read_digits-digits zero n h = ground (arith, h)
read_digits-digits (suc rounds) n h =
    let ih = read_digits-digits rounds (n / 10) (omega (arith, h)) in
    ground
      (arith, h, read_digits-append (digits rounds (n / 10)) ((b'0' + n % 10) ∷ []) 0 (n / 10) ih)

-- The digits of a number spell it.
pub read_digits-format : (n : ℕ) → n < 2 ^ 64 → read_digits (format n) 0 ≡ some n
unfolding format
read_digits-format n h = read_digits-digits 19 n (omega (arith, h))

abbrev pub IsDigit : ℕ → Type 0
IsDigit c = (b'0' ≤ c) × (c ≤ b'9')

pub All-append : (P : ℕ → Type 0) (s t : Bytes) → All P s → All P t → All P (s ++ t)
All-append P [] t a b = b
All-append P (c ∷ s) t a b = (a.0, All-append P s t a.1 b)

digits-All : (rounds n : ℕ) → All IsDigit (digits rounds n)
unfolding digits
digits-All zero n = ((omega arith, omega arith), tt)
digits-All (suc rounds) n =
    let one : IsDigit (b'0' + n % 10) = (omega arith, omega arith) in
    elim (Bool-cases (ltb n 10)) [
      | inl e ↦ rw e ((omega arith, omega (arith, ltb→lt n 10 e)), tt)
      | inr e ↦
          rw e
            (All-append IsDigit (digits rounds (n / 10)) _ (digits-All rounds (n / 10)) (one, tt))
    ]

pub format-All : (n : ℕ) → All IsDigit (format n)
unfolding format
format-All n = digits-All 19 n

append_nonempty : (s : Bytes) (c : ℕ) → s ++ c ∷ [] ≢ []
append_nonempty [] c e = cc e
append_nonempty (d ∷ s) c e = cc e

pub format_nonempty : (n : ℕ) → format n ≢ []
unfolding format digits
format_nonempty n = elim (Bool-cases (ltb n 10)) [
  | inl e ↦ rw e (λ x. cc x)
  | inr e ↦ rw e (append_nonempty _ _)
]
