-- ===== src/Interpreter/Expr.antt =====
-- internal/configuration/interpreter/expr.go: the expressions, one constructor for each type that
-- implements the interface `Expr`, over the numbers `F`.
use flotta_device_worker_ng.Base.{Bytes, ◌++◌, codes}
use flotta_device_worker_ng.Interpreter.Token.{Token, token_string}

pub data Expr (F : Type 0) : Type 0 where
  literal : Bytes → Expr F
  nil : Expr F
  num : F → Expr F
  unary : Token → Expr F → Expr F
  value : Expr F → Expr F → Expr F
  comp : Expr F → Token → Expr F → Expr F
  logic : Expr F → Token → Expr F → Expr F
  group : Expr F → Expr F

-- `( left op right )`, the text of a comparison and of a logic expression.
abbrev binary_string : Bytes → Token → Bytes → Bytes
binary_string l op r =
    codes "( " ++ (l ++ (codes " " ++ (token_string op ++ (codes " " ++ (r ++ codes " )")))))

-- The method `String`; `show_num` is the text of a number. The field `Right` of a `ValueExpr` is
-- never nil, since the parser always sets it.
unfoldable pub expr_string : {F : Type 0} → (F → Bytes) → Expr F → Bytes
expr_string show_num (literal name) = name
expr_string show_num nil = codes "nil"
expr_string show_num (num v) = show_num v
expr_string show_num (unary op r) = token_string op ++ expr_string show_num r
expr_string show_num (value l r) = expr_string show_num l ++ (codes " " ++ expr_string show_num r)
expr_string show_num (comp l op r) =
    binary_string (expr_string show_num l) op (expr_string show_num r)
expr_string show_num (logic l op r) =
    binary_string (expr_string show_num l) op (expr_string show_num r)
expr_string show_num (group e) = expr_string show_num e
