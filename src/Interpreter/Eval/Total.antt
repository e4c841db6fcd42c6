-- ===== src/Interpreter/Eval/Total.antt =====
-- When the evaluation of what the parser returns ends with a value, and when it does not.
use flotta_device_worker_ng.Base.{
  ◌≡◌, refl, Bool, true, false, Option, none, some, Bytes, lookup, if◌then◌else◌,
}
use flotta_device_worker_ng.Interpreter.Token.{Token, equals, not_equals}
use flotta_device_worker_ng.Interpreter.Float.{Float32}
use flotta_device_worker_ng.Interpreter.Expr.{Expr, literal, num, value, comp, logic, group}
use flotta_device_worker_ng.Interpreter.Parser.{E, parse}
use flotta_device_worker_ng.Interpreter.Parser.Outcome.{Result}
use flotta_device_worker_ng.Interpreter.Parser.Grammar.{
  UnaryShape, ValueShape, IsComparison, OrShape, AndShape, CompShape, PrimaryShape, is_equals,
  is_not_equals, is_gte, is_greater, is_lte, is_less,
}
use flotta_device_worker_ng.Interpreter.Parser.Ensures.{Ensures-ok}
use flotta_device_worker_ng.Interpreter.Parser.Sound.{parse-Ensures}
use flotta_device_worker_ng.Interpreter.Eval.{
  Variables, Variable, bool, float32, int, other, Value, is_null, Outcome, ok, num_value, null,
  accept, apply_comp, variable_value, ◌>>=◌,
}

abbrev pub IsEquality : Token → Type 0
IsEquality equals = Unit {0}
IsEquality not_equals = Unit {0}
IsEquality op = ⊥

module _ (fl : Float32) where
  -- A variable that is read holds a boolean or a number, or is missing.
  abbrev pub Readable : Option (Variable fl.Carrier) → Type 0
  Readable (some other) = ⊥
  Readable _ = Unit {0}

  -- What may stand right of an operator: `nil` of `==` and `!=` only, and a unit of measure behind a
  -- number only.
  abbrev pub RightSide : E fl → Token → Type 0
  RightSide Expr.nil op = IsEquality op
  RightSide (value (num v) r) op = Unit {0}
  RightSide (value l r) op = ⊥
  RightSide e op = Unit {0}

  abbrev pub Safe : Variables fl → E fl → Type 0
  Safe vars (literal name) = Readable (lookup name vars)
  Safe vars (comp l op r) = Safe vars l × RightSide r op
  Safe vars (logic l op r) = Safe vars l × Safe vars r
  Safe vars (group e) = Safe vars e
  Safe vars _ = Unit {0}

  abbrev pub Returns : Outcome fl → Type 0
  Returns m = (v : Value fl) × (m ≡ ok v)

  >>=-Returns :
      (m : Outcome fl) (k : Value fl → Outcome fl)
      → Returns m
      → ((v : Value fl) → Returns (k v))
      → Returns (◌>>=◌ fl m k)
  >>=-Returns m k (v, e) f = rw e (f v)

  pub literal-Returns :
      (e : E fl) (name : Bytes) (o : Option (Variable fl.Carrier))
      → Readable o
      → Returns (variable_value fl e name o)
  literal-Returns e name none h = (_, refl)
  literal-Returns e name (some (bool b)) h = (_, refl)
  literal-Returns e name (some (float32 v)) h = (_, refl)
  literal-Returns e name (some (int i)) h = (_, refl)
  literal-Returns e name (some other) h = absurd h

  if-Returns : (b : Bool) (x y : Outcome fl) → Returns x → Returns y → Returns (if b then x else y)
  if-Returns true x y h k = h
  if-Returns false x y h k = k

  -- A comparison with a value that is a number.
  pub with_num :
      (e : E fl) (op : Token) (l : Value fl) (c : fl.Carrier)
      → IsComparison op
      → Returns (apply_comp fl e op l (num_value fl c))
  unfolding apply_comp
  with_num e _ l c is_equals = if-Returns (is_null l.typ) _ _ (_, refl) (_, refl)
  with_num e _ l c is_not_equals = if-Returns (is_null l.typ) _ _ (_, refl) (_, refl)
  with_num e _ l c is_gte = if-Returns (is_null l.typ) _ _ (_, refl) (_, refl)
  with_num e _ l c is_greater = if-Returns (is_null l.typ) _ _ (_, refl) (_, refl)
  with_num e _ l c is_lte = if-Returns (is_null l.typ) _ _ (_, refl) (_, refl)
  with_num e _ l c is_less = if-Returns (is_null l.typ) _ _ (_, refl) (_, refl)

  pub with_nil :
      (e : E fl) (op : Token) (l : Value fl)
      → IsComparison op
      → IsEquality op
      → Returns (apply_comp fl e op l (null fl))
  unfolding apply_comp
  with_nil e _ l is_equals h = (_, refl)
  with_nil e _ l is_not_equals h = (_, refl)
  with_nil e _ l is_gte h = absurd h
  with_nil e _ l is_greater h = absurd h
  with_nil e _ l is_lte h = absurd h
  with_nil e _ l is_less h = absurd h

  right-Returns :
      (vars : Variables fl) (e : E fl) (op : Token) (l : Value fl) {r : E fl}
      → IsComparison op
      → ValueShape r
      → RightSide r op
      → Returns (◌>>=◌ fl (accept fl vars r) (λ y. apply_comp fl e op l y))
  unfolding accept
  right-Returns vars e op l c (ValueShape.plain (UnaryShape.number v)) h = with_num e op l v c
  right-Returns vars e op l c (ValueShape.plain (UnaryShape.negated v)) h = with_num e op l _ c
  right-Returns vars e op l c (ValueShape.plain UnaryShape.null) h = with_nil e op l c h
  right-Returns vars e op l c (ValueShape.measured name (UnaryShape.number v)) h =
      with_num e op l v c
  right-Returns vars e op l c (ValueShape.measured name (UnaryShape.negated v)) h = absurd h
  right-Returns vars e op l c (ValueShape.measured name UnaryShape.null) h = absurd h

module _ (fl : Float32) (vars : Variables fl) where
  mutual
    unfolding accept

    or-Returns : (e : E fl) → OrShape fl.Carrier e → Safe fl vars e → Returns fl (accept fl vars e)
    or-Returns e (OrShape.conjunct s) h = and-Returns e s h
    or-Returns _ (OrShape.disjoin {l} {r} s t) h =
        >>=-Returns fl _ _ (or-Returns l s h.0)
          λ x. >>=-Returns fl _ _ (and-Returns r t h.1) λ y. (_, refl)

    and-Returns :
        (e : E fl) → AndShape fl.Carrier e → Safe fl vars e → Returns fl (accept fl vars e)
    and-Returns e (AndShape.single s) h = comp-Returns e s h
    and-Returns _ (AndShape.conjoin {l} {r} s t) h =
        >>=-Returns fl _ _ (comp-Returns l s h.0)
          λ x. >>=-Returns fl _ _ (comp-Returns r t h.1) λ y. (_, refl)

    comp-Returns :
        (e : E fl) → CompShape fl.Carrier e → Safe fl vars e → Returns fl (accept fl vars e)
    comp-Returns e (CompShape.atom s) h = primary-Returns e s h
    comp-Returns _ (CompShape.compare {l} {r} {op} s c t) h =
        >>=-Returns fl _ _ (primary-Returns l s h.0)
          λ x. right-Returns fl vars (comp l op r) op x c t h.1

    primary-Returns :
        (e : E fl) → PrimaryShape fl.Carrier e → Safe fl vars e → Returns fl (accept fl vars e)
    primary-Returns _ (PrimaryShape.is_literal name) h =
        literal-Returns fl (literal name) name (lookup name vars) h
    primary-Returns _ PrimaryShape.is_nil h = (_, refl)
    primary-Returns _ (PrimaryShape.is_num v) h = (_, refl)
    primary-Returns _ (PrimaryShape.is_group {e} s) h = or-Returns e s h

-- An expression that the parser returned is evaluated to a value, with no panic, over variables that
-- hold booleans and numbers where they are read, if `nil` stands right of `==` and `!=` only and no
-- unit of measure stands behind `nil` or a negative number.
pub parse-Returns :
    (fl : Float32) (src : Bytes) (e : E fl) (vars : Variables fl)
    → parse fl src ≡ Result.ok e
    → Safe fl vars e
    → (v : Value fl) × (accept fl vars e ≡ ok v)
parse-Returns fl src e vars p h = or-Returns fl vars e (Ensures-ok (parse-Ensures fl src) p) h
