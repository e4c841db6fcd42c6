-- ===== src/Interpreter/Eval/Agree.antt =====
-- Evaluation reads no variable but those that the expression names, and compares numbers as its operators
-- say.
use flotta_device_worker_ng.Base.{◌≡◌, refl, ap, not, none, some, Bytes, lookup}
use flotta_device_worker_ng.Interpreter.Token.{Token, equals, not_equals, gte, greater, lte, less}
use flotta_device_worker_ng.Interpreter.Float.{Float32}
use flotta_device_worker_ng.Interpreter.Expr.{Expr, literal, num, unary, value, comp, logic, group}
use flotta_device_worker_ng.Interpreter.Parser.{E}
use flotta_device_worker_ng.Interpreter.Eval.{
  Variables, accept, evaluate, finish, apply_comp, float32,
}

module _ (fl : Float32) where
  -- Two environments agree on the variables that the evaluation of an expression looks up. A unit
  -- of measure is not looked up.
  abbrev pub AgreeOn : Variables fl → Variables fl → E fl → Type 0
  AgreeOn s t (literal name) = lookup name s ≡ lookup name t
  AgreeOn s t (comp l op r) = AgreeOn s t l × AgreeOn s t r
  AgreeOn s t (logic l op r) = AgreeOn s t l × AgreeOn s t r
  AgreeOn s t (group e) = AgreeOn s t e
  AgreeOn s t _ = Unit {0}

  accept_agree : (s t : Variables fl) (e : E fl) → AgreeOn s t e → accept fl s e ≡ accept fl t e
  unfolding accept
  accept_agree s t (literal name) h = rw h
  accept_agree s t (comp l op r) h = rw (accept_agree s t l h.0, accept_agree s t r h.1)
  accept_agree s t (logic l op r) h = rw (accept_agree s t l h.0, accept_agree s t r h.1)
  accept_agree s t (group e) h = accept_agree s t e h
  accept_agree s t Expr.nil h = refl
  accept_agree s t (num v) h = refl
  accept_agree s t (unary op r) h = refl
  accept_agree s t (value l r) h = refl

  -- Environments that agree on the variables of an expression give it the same result and error.
  pub evaluate_agree :
      (s t : Variables fl) (e : E fl) → AgreeOn s t e → evaluate fl s e ≡ evaluate fl t e
  unfolding evaluate
  evaluate_agree s t e h = ap (finish fl e) (accept_agree s t e h)

  -- A comparison of a variable that holds a float with a number is what the operator says: `!=` is
  -- the negation of `==`, and `>` and `>=` are `<` and `<=` with the sides exchanged.
  pub compare_float :
      (vars : Variables fl) (name : Bytes) (u v : fl.Carrier)
      → lookup name vars ≡ some (float32 u)
      → let test = λ (op : Token). evaluate fl vars (comp (literal name) op (num v)) in
        (test less ≡ (fl.lt u v, none))
        × (test lte ≡ (fl.le u v, none))
        × (test greater ≡ (fl.lt v u, none))
        × (test gte ≡ (fl.le v u, none))
        × (test equals ≡ (fl.eq u v, none))
        × (test not_equals ≡ (not (fl.eq u v), none))
  unfolding evaluate accept apply_comp finish
  compare_float vars name u v h = (rw h, rw h, rw h, rw h, rw h, rw h)
