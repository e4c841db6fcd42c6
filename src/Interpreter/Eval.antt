-- ===== src/Interpreter/Eval.antt =====
-- internal/configuration/interpreter/ast.go, value.go and interpreter.go. A panic of a visitor is an
-- outcome: with an `*EvaluationError`, or a failed type assertion of the Go runtime.
pub mod Agree
pub mod Shaped
pub mod Total
pub mod Panics
use flotta_device_worker_ng.Base.{
  ℕ, Bool, true, false, not, ◌&&◌, ◌||◌, List, Option, none, some, if◌then◌else◌, Bytes, lookup,
}
use flotta_device_worker_ng.Interpreter.Token.{
  Token, tok_eq, equals, not_equals, gte, greater, lte, less,
}
use flotta_device_worker_ng.Interpreter.Float.{Float32, ℤ}
use flotta_device_worker_ng.Interpreter.Expr.{Expr, literal, num, unary, value, comp, logic, group}
use flotta_device_worker_ng.Interpreter.Parser.{E, parse}
use flotta_device_worker_ng.Interpreter.Parser.Outcome.{Result}

pub data ValueType : Type 0 where
  type_null type_bool type_num : ValueType

-- `==` on the types of values.
abbrev pub is_null : ValueType → Bool
is_null type_null = true
is_null _ = false

abbrev pub is_bool : ValueType → Bool
is_bool type_bool = true
is_bool _ = false

pub data EvaluationMessage : Type 0 where
  unsupported : Token → EvaluationMessage
  unsupported_on_nil : Token → EvaluationMessage
  wrong_type : Bytes → EvaluationMessage
  expected_bool : ValueType → EvaluationMessage

-- What a variable of `map[string]interface{}` holds; `other` is a value of any other type.
pub data Variable (F : Type 0) : Type 0 where
  bool : Bool → Variable F
  float32 : F → Variable F
  int : ℤ → Variable F
  other : Variable F

module _ (fl : Float32) where
  open fl use {Carrier}

  pub record Value : Type 0 where
    pub typ : ValueType
    pub b : Bool
    pub n : Carrier

  abbrev pub num_value : Carrier → Value
  num_value n = record { typ = type_num; b = false; n = n }

  abbrev pub boolean : Bool → Value
  boolean b = record { typ = type_bool; b = b; n = fl.zero }

  abbrev pub null : Value
  null = record { typ = type_null; b = false; n = fl.zero }

  pub record EvaluationError : Type 0 where
    pub expr : E fl
    pub message : EvaluationMessage

  -- `bad_assertion` is the runtime's panic at `x.(T)`.
  pub data Outcome : Type 0 where
    ok : Value → Outcome
    eval_error : EvaluationError → Outcome
    bad_assertion : Outcome

  infixl 5 ◌>>=◌
  abbrev pub ◌>>=◌ : Outcome → (Value → Outcome) → Outcome
  ok v >>= k = k v
  eval_error e >>= k = eval_error e
  bad_assertion >>= k = bad_assertion

  abbrev pub panic : E fl → EvaluationMessage → Outcome
  panic e message = eval_error (record { expr = e; message = message })

  abbrev pub Variables : Type 0
  Variables = List (Bytes × Variable Carrier)

  -- The `switch` on the operator of a logic expression.
  abbrev pub apply_logic : E fl → Token → Value → Value → Outcome
  apply_logic e Token.or l r = ok (boolean (l.b || r.b))
  apply_logic e Token.and l r = ok (boolean (l.b && r.b))
  apply_logic e op l r = panic e (unsupported op)

  -- A comparison with nil.
  abbrev pub compare_nil : E fl → Token → Value → Outcome
  compare_nil e equals l = ok (boolean (is_null l.typ))
  compare_nil e not_equals l = ok (boolean (not (is_null l.typ)))
  compare_nil e op l = panic e (unsupported_on_nil op)

  abbrev pub compare_num : E fl → Token → Carrier → Carrier → Outcome
  compare_num e less a b = ok (boolean (fl.lt a b))
  compare_num e lte a b = ok (boolean (fl.le a b))
  compare_num e greater a b = ok (boolean (fl.lt b a))
  compare_num e gte a b = ok (boolean (fl.le b a))
  compare_num e equals a b = ok (boolean (fl.eq a b))
  compare_num e not_equals a b = ok (boolean (not (fl.eq a b)))
  compare_num e op a b = panic e (unsupported op)

  unfoldable pub apply_comp : E fl → Token → Value → Value → Outcome
  apply_comp e op l r =
      if is_null r.typ
      then compare_nil e op l
      else if is_null l.typ
      then ok (boolean false)
      else compare_num e op l.n r.n

  -- `e.(*NumExpr)` and its value.
  abbrev pub as_num : E fl → (Carrier → Outcome) → Outcome
  as_num (num v) k = k v
  as_num e k = bad_assertion

  abbrev pub variable_value : E fl → Bytes → Option (Variable Carrier) → Outcome
  variable_value e name none = ok null
  variable_value e name (some (bool b)) = ok (boolean b)
  variable_value e name (some (float32 v)) = ok (num_value v)
  variable_value e name (some (int i)) = ok (num_value (fl.of_int i))
  variable_value e name (some other) = panic e (wrong_type name)

  -- `Accept`, which calls the visitor of the expression's type. Both sides of a logic expression are
  -- evaluated, the left one first.
  unfoldable pub accept : Variables → E fl → Outcome
  accept vars (literal name) = variable_value (literal name) name (lookup name vars)
  accept vars Expr.nil = ok null
  accept vars (num v) = ok (num_value v)
  accept vars (unary op r) = as_num r λ v. ok (num_value (fl.mul fl.minus_one v))
  accept vars (value l r) = as_num l λ v. ok (num_value v)
  accept vars (comp l op r) = do
    x ← accept vars l
    y ← accept vars r
    apply_comp (comp l op r) op x y
  accept vars (logic l op r) = do
    x ← accept vars l
    y ← accept vars r
    apply_logic (logic l op r) op x y
  accept vars (group e) = accept vars e

  -- The error that `Evaluate` returns. `typed_nil` is the nil `*EvaluationError` that its deferred
  -- function assigns when it recovers another panic; as an `error` it is not nil.
  pub data Error : Type 0 where
    evaluation : EvaluationError → Error
    typed_nil : Error

  -- The result and the error of `Evaluate`.
  unfoldable pub finish : E fl → Outcome → Bool × Option Error
  finish e (ok v) =
      if is_bool v.typ
      then (v.b, none)
      else (false, some (evaluation (record { expr = e; message = expected_bool v.typ })))
  finish e (eval_error x) = (false, some (evaluation x))
  finish e bad_assertion = (false, some typed_nil)

  unfoldable pub evaluate : Variables → E fl → Bool × Option Error
  evaluate vars e = finish e (accept vars e)

  -- `New`: the interpreter of a text is its expression.
  abbrev pub new_interpreter : Bytes → Result (E fl)
  new_interpreter = parse fl
