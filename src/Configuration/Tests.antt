-- ===== src/Configuration/Tests.antt =====
-- Configurations of profiles at concrete inputs.
use flotta_device_worker_ng.Base.{◌≡◌, refl, true, false, [], ◌∷◌, map, Bytes, codes, str_eq}
use flotta_device_worker_ng.Interpreter.Naturals.{naturals}
use flotta_device_worker_ng.Interpreter.Lexer
use flotta_device_worker_ng.Interpreter.Lexer.{
  new_lexer, skip, collect, scan_name, scan_number, scan_two, scan_symbol, scan_token, scan,
}
use flotta_device_worker_ng.Interpreter.Parser
use flotta_device_worker_ng.Interpreter.Parser.{
  primary, unary_expr, value_expr, compare, and_expr, or_loop, or_expr, expression, parse,
}
use flotta_device_worker_ng.Interpreter.Eval.{Variables, float32}
use flotta_device_worker_ng.Profile.Results.{ProfileEvaluationResult}
use flotta_device_worker_ng.Configuration.{Conditions, create_conditions}
use flotta_device_worker_ng.Configuration.Profiles.{
  condition_name, Parses, is_ok, create_conditions_cut,
}

abbrev low : Bytes × Bytes
low = (codes "low", codes "cpu<5")

low-Parses : Parses naturals low
unfolding parse expression or_expr or_loop and_expr compare value_expr unary_expr primary
    Parser.next scan scan_token scan_name scan_number scan_two scan_symbol skip collect new_lexer
    Lexer.next str_eq
low-Parses = refl

-- The second expression has no operator behind its variable.
abbrev broken : Bytes
broken = codes "cpu 5"

broken_fails : is_ok naturals (parse naturals broken) ≡ false
unfolding parse expression or_expr or_loop and_expr compare value_expr unary_expr primary
    Parser.next scan scan_token scan_name scan_number scan_two scan_symbol skip collect new_lexer
    Lexer.next str_eq
broken_fails = refl

create_conditions_cut_example :
    map
      (condition_name naturals)
      (create_conditions naturals (low ∷ ((codes "bad", broken) ∷ (low ∷ []))))
    ≡ codes "low" ∷ []
create_conditions_cut_example =
    create_conditions_cut naturals (low ∷ []) (low ∷ []) (codes "bad") broken (low-Parses, tt)
      broken_fails

abbrev metrics : Variables naturals
metrics = (codes "cpu", float32 3) ∷ []

abbrev performance : Bytes × Conditions
performance = (codes "performance", low ∷ [])

abbrev low_holds : ProfileEvaluationResult
low_holds = record {
  name = codes "performance";
  conditions_results = record { name = codes "low"; value = true; error = false } ∷ [];
}
