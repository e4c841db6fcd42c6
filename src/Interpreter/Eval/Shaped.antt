-- ===== src/Interpreter/Eval/Shaped.antt =====
-- The evaluation of what the parser returns.
use flotta_device_worker_ng.Base.{◌≡◌, ◌≢◌, Option, none, some, Bytes, lookup, arith}
use flotta_device_worker_ng.Interpreter.Token.{Token}
use flotta_device_worker_ng.Interpreter.Float.{Float32}
use flotta_device_worker_ng.Interpreter.Expr.{literal, num, comp}
use flotta_device_worker_ng.Interpreter.Parser.{E, parse}
use flotta_device_worker_ng.Interpreter.Parser.Outcome.{Result}
use flotta_device_worker_ng.Interpreter.Parser.Grammar.{
  UnaryShape, ValueShape, IsComparison, OrShape, AndShape, CompShape, PrimaryShape, is_equals,
  is_not_equals, is_gte, is_greater, is_lte, is_less,
}
use flotta_device_worker_ng.Interpreter.Parser.Ensures.{Ensures-ok}
use flotta_device_worker_ng.Interpreter.Parser.Sound.{parse-Ensures}
use flotta_device_worker_ng.Interpreter.Eval.{
  Variables, Variable, bool, float32, int, other, Value, unsupported, EvaluationError, Outcome, ok,
  eval_error, bad_assertion, evaluation, num_value, accept, evaluate, finish, apply_comp, as_num,
  variable_value, ◌>>=◌,
}

module _ (fl : Float32) where
  -- The outcome is not the panic about an operator that a visitor does not know.
  abbrev IsSupported : Outcome fl → Type 0
  IsSupported (eval_error x) = (op : Token) → x.message ≢ unsupported op
  IsSupported _ = Unit {0}

  >>=-IsSupported :
      (m : Outcome fl) (k : Value fl → Outcome fl)
      → IsSupported m
      → ((v : Value fl) → IsSupported (k v))
      → IsSupported (◌>>=◌ fl m k)
  >>=-IsSupported (ok v) k h f = f v
  >>=-IsSupported (eval_error x) k h f = h
  >>=-IsSupported bad_assertion k h f = tt

  as_num-IsSupported : (e : E fl) → IsSupported (as_num fl e (λ v. ok (num_value fl v)))
  as_num-IsSupported (num v) = tt
  as_num-IsSupported _ = tt

  comp-IsSupported :
      (e : E fl) {op : Token} (l r : Value fl)
      → IsComparison op
      → IsSupported (apply_comp fl e op l r)
  unfolding apply_comp
  comp-IsSupported e l r is_equals = ground arith
  comp-IsSupported e l r is_not_equals = ground arith
  comp-IsSupported e l r is_gte = ground arith
  comp-IsSupported e l r is_greater = ground arith
  comp-IsSupported e l r is_lte = ground arith
  comp-IsSupported e l r is_less = ground arith

  unary-IsSupported :
      (vars : Variables fl) {e : E fl} → UnaryShape e → IsSupported (accept fl vars e)
  unfolding accept
  unary-IsSupported vars (UnaryShape.number v) = tt
  unary-IsSupported vars (UnaryShape.negated v) = tt
  unary-IsSupported vars UnaryShape.null = tt

  value-IsSupported :
      (vars : Variables fl) {e : E fl} → ValueShape e → IsSupported (accept fl vars e)
  unfolding accept
  value-IsSupported vars (ValueShape.plain u) = unary-IsSupported vars u
  value-IsSupported vars (ValueShape.measured {e} name u) = as_num-IsSupported e

  literal-IsSupported :
      (e : E fl) (name : Bytes) (o : Option (Variable fl.Carrier))
      → IsSupported (variable_value fl e name o)
  literal-IsSupported e name none = tt
  literal-IsSupported e name (some (bool b)) = tt
  literal-IsSupported e name (some (float32 v)) = tt
  literal-IsSupported e name (some (int i)) = tt
  literal-IsSupported e name (some other) = λ op. cc

module _ (fl : Float32) (vars : Variables fl) where
  mutual
    unfolding accept

    or-IsSupported : (e : E fl) → OrShape fl.Carrier e → IsSupported fl (accept fl vars e)
    or-IsSupported e (OrShape.conjunct s) = and-IsSupported e s
    or-IsSupported _ (OrShape.disjoin {l} {r} s t) =
        >>=-IsSupported fl _ _ (or-IsSupported l s)
          λ x. >>=-IsSupported fl _ _ (and-IsSupported r t) λ y. tt

    and-IsSupported : (e : E fl) → AndShape fl.Carrier e → IsSupported fl (accept fl vars e)
    and-IsSupported e (AndShape.single s) = comp-IsSupported' e s
    and-IsSupported _ (AndShape.conjoin {l} {r} s t) =
        >>=-IsSupported fl _ _ (comp-IsSupported' l s)
          λ x. >>=-IsSupported fl _ _ (comp-IsSupported' r t) λ y. tt

    comp-IsSupported' : (e : E fl) → CompShape fl.Carrier e → IsSupported fl (accept fl vars e)
    comp-IsSupported' e (CompShape.atom s) = primary-IsSupported e s
    comp-IsSupported' _ (CompShape.compare {l} {r} {op} s c t) =
        >>=-IsSupported fl _ _ (primary-IsSupported l s) λ x.
          >>=-IsSupported fl _ _ (value-IsSupported fl vars t)
            λ y. comp-IsSupported fl (comp l op r) x y c

    primary-IsSupported : (e : E fl) → PrimaryShape fl.Carrier e → IsSupported fl (accept fl vars e)
    primary-IsSupported _ (PrimaryShape.is_literal name) =
        literal-IsSupported fl (literal name) name (lookup name vars)
    primary-IsSupported _ PrimaryShape.is_nil = tt
    primary-IsSupported _ (PrimaryShape.is_num v) = tt
    primary-IsSupported _ (PrimaryShape.is_group {e} s) = or-IsSupported e s

finish_supported :
    (fl : Float32) (e : E fl) (m : Outcome fl) (x : EvaluationError fl) (op : Token)
    → IsSupported fl m
    → (finish fl e m).1 ≡ some (evaluation x)
    → x.message ≢ unsupported op
unfolding finish
finish_supported fl e (ok v) x op h q = ground arith
finish_supported fl e (eval_error y) x op h q = λ r. h op (ground (arith, q, r))
finish_supported fl e bad_assertion x op h q = cc

-- An expression that the parser returned, evaluated over any variables, never gives the error about
-- an operator that the visitors do not know.
pub parse_supported :
    (fl : Float32) (src : Bytes) (e : E fl) (vars : Variables fl) (x : EvaluationError fl)
    (op : Token)
    → parse fl src ≡ Result.ok e
    → (evaluate fl vars e).1 ≡ some (evaluation x)
    → x.message ≢ unsupported op
unfolding evaluate
parse_supported fl src e vars x op p q =
    finish_supported fl e (accept fl vars e) x op
      (or-IsSupported fl vars e (Ensures-ok (parse-Ensures fl src) p)) q
