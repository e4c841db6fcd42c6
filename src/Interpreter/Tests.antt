-- ===== src/Interpreter/Tests.antt =====
-- Runs of the interpreter's model at concrete inputs.
use flotta_device_worker_ng.Base.{ℕ, ◌≡◌, refl, false, [], ◌∷◌, some, Bytes, codes, lookup, str_eq}
use flotta_device_worker_ng.Interpreter.Token.{Token, greater, less, dec}
use flotta_device_worker_ng.Interpreter.Naturals.{naturals}
use flotta_device_worker_ng.Interpreter.Expr.{literal, num, unary, value, comp, logic}
use flotta_device_worker_ng.Interpreter.Lexer
use flotta_device_worker_ng.Interpreter.Lexer.{
  Lexer, new_lexer, skip, collect, slice, fuel, scan_name, scan_number, scan_two, scan_symbol,
  scan_token, scan,
}
use flotta_device_worker_ng.Interpreter.Lexer.Listed.{scan_list}
use flotta_device_worker_ng.Interpreter.Lexer.Refine.{
  Refines, unplaced, scan-Refines, new_lexer-IsValid,
}
use flotta_device_worker_ng.Interpreter.Parser
use flotta_device_worker_ng.Interpreter.Parser.{
  E, primary, unary_expr, value_expr, compare, and_expr, or_loop, or_expr, expression, parse,
}
use flotta_device_worker_ng.Interpreter.Parser.Outcome.{Result}
use flotta_device_worker_ng.Interpreter.Parser.Grammar.{OrShape}
use flotta_device_worker_ng.Interpreter.Parser.Ensures.{Ensures}
use flotta_device_worker_ng.Interpreter.Parser.Sound.{parse-Ensures}
use flotta_device_worker_ng.Interpreter.Eval.{
  Variables, float32, Value, typed_nil, ok, accept, evaluate,
}
use flotta_device_worker_ng.Interpreter.Eval.Total.{parse-Returns}
use flotta_device_worker_ng.Interpreter.Eval.Panics.{negative_unit_panics}

abbrev source : Bytes
source = codes "cpu<5"

abbrev low : E naturals
low = comp (literal (codes "cpu")) less (num 5)

abbrev metrics : Variables naturals
metrics = (codes "cpu", float32 3) ∷ []

scan-Refines_example :
    Refines (new_lexer source) (unplaced (scan (new_lexer source))) (scan_list source)
unfolding new_lexer Lexer.next
scan-Refines_example = scan-Refines (new_lexer source) (new_lexer-IsValid source).0

parse-Ensures_example : Ensures (OrShape ℕ) (parse naturals source)
parse-Ensures_example = parse-Ensures naturals source

parsed : parse naturals source ≡ Result.ok low
unfolding parse expression or_expr or_loop and_expr compare value_expr unary_expr primary
    Parser.next scan scan_token scan_name scan_number scan_two scan_symbol skip collect new_lexer
    Lexer.next str_eq
parsed = refl

parse-Returns_example : (v : Value naturals) × (accept naturals metrics low ≡ ok v)
unfolding lookup str_eq
parse-Returns_example = parse-Returns naturals source low metrics parsed (tt, tt)

-- A unit of measure behind a negative number.
abbrev measured : Bytes
measured = codes "cpu > -5 c"

abbrev below : E naturals
below = comp (literal (codes "cpu")) greater (value (unary dec (num 5)) (literal (codes "c")))

parsed_measured : parse naturals measured ≡ Result.ok below
unfolding parse expression or_expr or_loop and_expr compare value_expr unary_expr primary
    Parser.next scan scan_token scan_name scan_number scan_two scan_symbol skip collect new_lexer
    Lexer.next str_eq
parsed_measured = refl

negative_unit_panics_example : evaluate naturals metrics below ≡ (false, some typed_nil)
unfolding lookup str_eq
negative_unit_panics_example =
    negative_unit_panics naturals measured below metrics parsed_measured (tt, tt) refl

abbrev more_metrics : Variables naturals
more_metrics = (codes "mem", float32 9) ∷ metrics

-- The third of three comparisons joined by `&&` is dropped.
abbrev three : Bytes
three = codes "a<1 && b<2 && c<3"

third_dropped :
    parse naturals three
    ≡ Result.ok (
        logic
          (comp (literal (codes "a")) less (num 1))
          Token.and
          (comp (literal (codes "b")) less (num 2)))
unfolding parse expression or_expr or_loop and_expr compare value_expr unary_expr primary
    Parser.next scan scan_token scan_name scan_number scan_two scan_symbol skip collect new_lexer
    Lexer.next str_eq
third_dropped = refl
