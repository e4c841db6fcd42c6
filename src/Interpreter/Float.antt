-- ===== src/Interpreter/Float.antt =====
-- Go's `float32` and what the interpreter uses of it: the type is a parameter of the model.
use flotta_device_worker_ng.Base.{ℕ, Bool, Option, Bytes}

-- Go's `int`; `negsuc n` is -(n + 1).
pub data ℤ : Type 0 where
  pos : ℕ → ℤ
  negsuc : ℕ → ℤ

-- `parse` is `strconv.ParseFloat(s, 32)` with the conversion of its result, and `none` its error;
-- `of_int` is the conversion `float32(n)`; the tests are `<`, `<=` and `==`.
pub record Float32 : Type 1 where
  pub Carrier : Type 0
  pub zero : Carrier
  pub minus_one : Carrier
  pub parse : Bytes → Option Carrier
  pub of_int : ℤ → Carrier
  pub mul : Carrier → Carrier → Carrier
  pub lt : Carrier → Carrier → Bool
  pub le : Carrier → Carrier → Bool
  pub eq : Carrier → Carrier → Bool
