-- ===== src/Interpreter/Naturals.antt =====
-- Natural numbers in the place of `float32`, for runs of the model.
use flotta_device_worker_ng.Base.{ℕ, ◌+◌, ◌-◌, ◌*◌, [], ◌∷◌, Option, some, ltb, leb, ◌==◌, Bytes}
use flotta_device_worker_ng.Interpreter.Float.{Float32, ℤ, pos, negsuc}

-- Numbers without a fraction, a numeral by the sum of its digits.
abbrev digits : Bytes → ℕ
digits [] = 0
digits (c ∷ cs) = (c - b'0') + digits cs

abbrev parse_number : Bytes → Option ℕ
parse_number s = some (digits s)

abbrev of_int : ℤ → ℕ
of_int (pos n) = n
of_int (negsuc n) = 0

abbrev pub naturals : Float32
naturals = record {
  Carrier = ℕ;
  zero = 0;
  minus_one = 0;
  parse = parse_number;
  of_int = of_int;
  mul = λ a b. a * b;
  lt = ltb;
  le = leb;
  eq = λ a b. a == b;
}
