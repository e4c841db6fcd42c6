-- ===== src/Interpreter/Eval/Panics.antt =====
-- Which expressions that the parser returns make a type assertion of the visitors panic.
use flotta_device_worker_ng.Base.{◌≡◌, refl, Bool, true, false, ◌||◌, some, Bytes, lookup}
use flotta_device_worker_ng.Interpreter.Token.{Token}
use flotta_device_worker_ng.Interpreter.Float.{Float32}
use flotta_device_worker_ng.Interpreter.Expr.{Expr, literal, num, value, comp, logic, group}
use flotta_device_worker_ng.Interpreter.Parser.{E, parse}
use flotta_device_worker_ng.Interpreter.Parser.Outcome.{Result}
use flotta_device_worker_ng.Interpreter.Parser.Grammar.{
  UnaryShape, ValueShape, IsComparison, OrShape, AndShape, CompShape, PrimaryShape,
}
use flotta_device_worker_ng.Interpreter.Parser.Ensures.{Ensures-ok}
use flotta_device_worker_ng.Interpreter.Parser.Sound.{parse-Ensures}
use flotta_device_worker_ng.Interpreter.Eval.{
  Variables, Value, Outcome, bad_assertion, typed_nil, accept, evaluate, finish, apply_comp, ◌>>=◌,
}
use flotta_device_worker_ng.Interpreter.Eval.Total.{
  IsEquality, Readable, Returns, literal-Returns, with_num, with_nil,
}

module _ (fl : Float32) where
  -- Whether a unit of measure stands behind a negative number or behind `nil`.
  abbrev pub wrong_unit : E fl → Bool
  wrong_unit (value (num v) r) = false
  wrong_unit (value l r) = true
  wrong_unit e = false

  -- Whether one does right of an operator, anywhere in an expression.
  abbrev pub has_wrong_unit : E fl → Bool
  has_wrong_unit (comp l op r) = has_wrong_unit l || wrong_unit r
  has_wrong_unit (logic l op r) = has_wrong_unit l || has_wrong_unit r
  has_wrong_unit (group e) = has_wrong_unit e
  has_wrong_unit e = false

  abbrev NilRight : E fl → Token → Type 0
  NilRight Expr.nil op = IsEquality op
  NilRight e op = Unit {0}

  -- The variables that are read hold booleans and numbers, or are missing, and `nil` stands right of
  -- `==` and `!=` only.
  abbrev pub Tame : Variables fl → E fl → Type 0
  Tame vars (literal name) = Readable fl (lookup name vars)
  Tame vars (comp l op r) = Tame vars l × NilRight r op
  Tame vars (logic l op r) = Tame vars l × Tame vars r
  Tame vars (group e) = Tame vars e
  Tame vars _ = Unit {0}

  -- A panic of the runtime, or a value.
  abbrev Meets : Bool → Outcome fl → Type 0
  Meets true m = m ≡ bad_assertion
  Meets false m = Returns fl m

  bind-Meets :
      (b c : Bool) (m : Outcome fl) (k : Value fl → Outcome fl)
      → Meets b m
      → ((v : Value fl) → Meets c (k v))
      → Meets (b || c) (◌>>=◌ fl m k)
  bind-Meets true c m k e f = rw e refl
  bind-Meets false true m k (v, e) f = rw e (f v)
  bind-Meets false false m k (v, e) f = rw e (f v)

  after_left :
      (b : Bool) (m : Outcome fl) (k : Value fl → Outcome fl)
      → Meets b m
      → ((v : Value fl) → Returns fl (k v))
      → Meets b (◌>>=◌ fl m k)
  after_left true m k e f = rw e refl
  after_left false m k (v, e) f = rw e (f v)

  right-Meets :
      (vars : Variables fl) (e : E fl) (op : Token) (l : Value fl) {r : E fl}
      → IsComparison op
      → ValueShape r
      → NilRight r op
      → Meets (wrong_unit r) (◌>>=◌ fl (accept fl vars r) (λ y. apply_comp fl e op l y))
  unfolding accept
  right-Meets vars e op l c (ValueShape.plain (UnaryShape.number v)) h = with_num fl e op l v c
  right-Meets vars e op l c (ValueShape.plain (UnaryShape.negated v)) h = with_num fl e op l _ c
  right-Meets vars e op l c (ValueShape.plain UnaryShape.null) h = with_nil fl e op l c h
  right-Meets vars e op l c (ValueShape.measured name (UnaryShape.number v)) h =
      with_num fl e op l v c
  right-Meets vars e op l c (ValueShape.measured name (UnaryShape.negated v)) h = refl
  right-Meets vars e op l c (ValueShape.measured name UnaryShape.null) h = refl

module _ (fl : Float32) (vars : Variables fl) where
  abbrev Ends : E fl → Type 0
  Ends e = Meets fl (has_wrong_unit fl e) (accept fl vars e)

  mutual
    unfolding accept

    or-Ends : (e : E fl) → OrShape fl.Carrier e → Tame fl vars e → Ends e
    or-Ends e (OrShape.conjunct s) h = and-Ends e s h
    or-Ends _ (OrShape.disjoin {l} {r} s t) h =
        bind-Meets fl (has_wrong_unit fl l) (has_wrong_unit fl r) _ _ (or-Ends l s h.0)
          λ x. after_left fl (has_wrong_unit fl r) _ _ (and-Ends r t h.1) λ y. (_, refl)

    and-Ends : (e : E fl) → AndShape fl.Carrier e → Tame fl vars e → Ends e
    and-Ends e (AndShape.single s) h = comp-Ends e s h
    and-Ends _ (AndShape.conjoin {l} {r} s t) h =
        bind-Meets fl (has_wrong_unit fl l) (has_wrong_unit fl r) _ _ (comp-Ends l s h.0)
          λ x. after_left fl (has_wrong_unit fl r) _ _ (comp-Ends r t h.1) λ y. (_, refl)

    comp-Ends : (e : E fl) → CompShape fl.Carrier e → Tame fl vars e → Ends e
    comp-Ends e (CompShape.atom s) h = primary-Ends e s h
    comp-Ends _ (CompShape.compare {l} {r} {op} s c t) h =
        bind-Meets fl (has_wrong_unit fl l) (wrong_unit fl r) _ _ (primary-Ends l s h.0)
          λ x. right-Meets fl vars (comp l op r) op x c t h.1

    primary-Ends : (e : E fl) → PrimaryShape fl.Carrier e → Tame fl vars e → Ends e
    primary-Ends _ (PrimaryShape.is_literal name) h =
        literal-Returns fl (literal name) name (lookup name vars) h
    primary-Ends _ PrimaryShape.is_nil h = (_, refl)
    primary-Ends _ (PrimaryShape.is_num v) h = (_, refl)
    primary-Ends _ (PrimaryShape.is_group {e} s) h = or-Ends e s h

finish_bad :
    (fl : Float32) (e : E fl) (b : Bool) (m : Outcome fl)
    → Meets fl b m
    → b ≡ true
    → finish fl e m ≡ (false, some typed_nil)
unfolding finish
finish_bad fl e true m h b = rw h refl
finish_bad fl e false m h b = cc b

-- An expression that the parser returned, and in which a unit of measure stands anywhere behind a
-- negative number or behind `nil`, makes `Evaluate` return an error that holds a nil pointer, over
-- variables that hold booleans and numbers where they are read, if `nil` without a unit stands right
-- of `==` and `!=` only.
pub negative_unit_panics :
    (fl : Float32) (src : Bytes) (e : E fl) (vars : Variables fl)
    → parse fl src ≡ Result.ok e
    → Tame fl vars e
    → has_wrong_unit fl e ≡ true
    → evaluate fl vars e ≡ (false, some typed_nil)
unfolding evaluate
negative_unit_panics fl src e vars p h b =
    finish_bad fl e (has_wrong_unit fl e) (accept fl vars e)
      (or-Ends fl vars e (Ensures-ok (parse-Ensures fl src) p) h) b
