-- ===== src/Interpreter/Parser/Grammar.antt =====
-- The grammar that the methods of `*parser` accept, as shapes of the expressions that they return.
use flotta_device_worker_ng.Base.{Bytes}
use flotta_device_worker_ng.Interpreter.Token.{
  Token, dec, equals, not_equals, gte, greater, lte, less,
}
use flotta_device_worker_ng.Interpreter.Expr.{
  Expr, literal, nil, num, unary, value, comp, logic, group,
}

module _ {F : Type 0} where
  -- A number, a negated number or `nil`.
  pub data UnaryShape : Expr F → Type 0 where
    number : (v : F) → UnaryShape (num v)
    negated : (v : F) → UnaryShape (unary dec (num v))
    null : UnaryShape nil

  -- A unary expression, perhaps with a name behind it as its unit of measure.
  pub data ValueShape : Expr F → Type 0 where
    plain : {e : Expr F} → UnaryShape e → ValueShape e
    measured : {e : Expr F} (name : Bytes) → UnaryShape e → ValueShape (value e (literal name))

pub data IsComparison : Token → Type 0 where
  is_equals : IsComparison equals
  is_not_equals : IsComparison not_equals
  is_gte : IsComparison gte
  is_greater : IsComparison greater
  is_lte : IsComparison lte
  is_less : IsComparison less

-- `||` chains to the left, `&&` joins two comparisons and no more, and a comparison has one
-- operator. Parentheses begin anew.
mutual
  pub data OrShape (F : Type 0) : Expr F → Type 0 where
    conjunct : {e : Expr F} → AndShape F e → OrShape F e
    disjoin : {l r : Expr F} → OrShape F l → AndShape F r → OrShape F (logic l Token.or r)

  pub data AndShape (F : Type 0) : Expr F → Type 0 where
    single : {e : Expr F} → CompShape F e → AndShape F e
    conjoin : {l r : Expr F} → CompShape F l → CompShape F r → AndShape F (logic l Token.and r)

  pub data CompShape (F : Type 0) : Expr F → Type 0 where
    atom : {e : Expr F} → PrimaryShape F e → CompShape F e
    compare :
        {l r : Expr F} {op : Token}
        → PrimaryShape F l
        → IsComparison op
        → ValueShape r
        → CompShape F (comp l op r)

  pub data PrimaryShape (F : Type 0) : Expr F → Type 0 where
    is_literal : (name : Bytes) → PrimaryShape F (literal name)
    is_nil : PrimaryShape F nil
    is_num : (v : F) → PrimaryShape F (num v)
    is_group : {e : Expr F} → OrShape F e → PrimaryShape F (group e)
