-- ===== src/Interpreter/Parser/Outcome.antt =====
-- The parser's state and the outcome of a method of `*parser`.
use flotta_device_worker_ng.Base.{ℕ, Bytes, List}
use flotta_device_worker_ng.Interpreter.Token.{Token}
use flotta_device_worker_ng.Interpreter.Lexer.{Lexer}

pub record Parser : Type 0 where
  pub lexer : Lexer
  pub pos : ℕ
  pub tok : Token
  pub val : Bytes

-- The messages, one constructor for each format.
pub data Message : Type 0 where
  illegal : Bytes → Message
  expecting_end : Token → Message
  expected : List Token → Token → Message
  expected_number : Bytes → Message
  unknown : Token → Message
  text : Bytes → Message

pub record ParseError : Type 0 where
  pub position : ℕ
  pub message : Message

-- `out_of_fuel` has no counterpart in the program.
pub data Result {ℓ} (A : Type ℓ) : Type ℓ where
  ok : A → Result A
  err : ParseError → Result A
  out_of_fuel : Result A

abbrev pub M {ℓ} : Type ℓ → Type ℓ
M A = Parser → Result (A × Parser)

abbrev pub bind {ℓ κ} : {A : Type ℓ} {B : Type κ} → Result A → (A → Result B) → Result B
bind (ok a) f = f a
bind (err e) f = err e
bind out_of_fuel f = out_of_fuel

abbrev pub pure {ℓ} : {A : Type ℓ} → A → M A
pure a p = ok (a, p)

abbrev pub first {ℓ} : {A : Type ℓ} → Result (A × Parser) → Result A
first r = bind r λ (a, _). ok a

module _ {ℓ κ} {A : Type ℓ} {B : Type κ} where
  infixl 5 ◌>>=◌ ◌>>◌
  abbrev pub ◌>>=◌ : M A → (A → M B) → M B
  ◌>>=◌ m k p = bind (m p) λ (a, q). k a q

  abbrev pub ◌>>◌ : M A → M B → M B
  m >> k = m >>= λ _. k
