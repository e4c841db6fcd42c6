-- ===== src/Interpreter/Parser.antt =====
-- internal/configuration/interpreter/parser.go. A method of `*parser` is a function on the parser
-- that returns the new one; a panic with a `*ParseError` is `err`. The recursion from `primary` back
-- to `expression` is a parameter of the functions between them, and takes fuel.
pub mod Outcome
pub mod Grammar
pub mod Ensures
pub mod Atoms
pub mod Sound
use flotta_device_worker_ng.Base.{
  ℕ, zero, suc, ◌+◌, Bool, true, false, ◌||◌, List, [], ◌∷◌, Option, none, some, if◌then◌else◌,
  length, Bytes, codes,
}
use flotta_device_worker_ng.Interpreter.Token.{
  Token, tok_eq, illegal, eol, lparen, rparen, dec, equals, not_equals, gte, greater, lte, less,
  string, number,
}
use flotta_device_worker_ng.Interpreter.Float.{Float32}
use flotta_device_worker_ng.Interpreter.Expr.{Expr, literal, num, unary, value, comp, logic, group}
use flotta_device_worker_ng.Interpreter.Lexer.{Lexer, new_lexer, scan}
use Outcome.{Result, ok, err, out_of_fuel, Message, ParseError, Parser, M, pure, ◌>>=◌, ◌>>◌}

-- `errorf`, and the panic that every caller makes of it.
abbrev pub errorf {ℓ} : {A : Type ℓ} → Message → M A
errorf message p = err (record { position = p.pos; message = message })

-- Read the next token.
unfoldable pub next : M (Unit {0})
next p =
    let (pos, tok, val, l) = scan p.lexer in
    let p' = record p { lexer = l; pos = pos; tok = tok; val = val } in
    if tok_eq tok illegal then errorf (Message.illegal val) p' else ok (tt, p')

-- Whether the current token is one of the given ones.
abbrev pub matches : List Token → Parser → Bool
matches [] p = false
matches (op ∷ ops) p = tok_eq p.tok op || matches ops p

abbrev pub expect : List Token → M (Unit {0})
expect toks p = if matches toks p then ok (tt, p) else errorf (Message.expected toks p.tok) p

abbrev pub consume : Token → Bytes → M (Unit {0})
consume tok msg p = if matches (tok ∷ []) p then next p else errorf (Message.text msg) p

abbrev pub comparisons : List Token
comparisons = greater ∷ gte ∷ less ∷ lte ∷ equals ∷ not_equals ∷ []

module _ (fl : Float32) where
  open fl use {Carrier, parse as parse_float}

  abbrev pub E : Type 0
  E = Expr Carrier

  number_of : Option Carrier → M E
  number_of none p = errorf (Message.expected_number p.val) p
  number_of (some v) p = (do next; pure (num v)) p

  -- `switch p.tok`; the last clause is `default`.
  primary_of : M E → Token → M E
  primary_of rec Token.string p = (do next; pure (literal p.val)) p
  primary_of rec Token.nil p = (do next; pure Expr.nil) p
  primary_of rec Token.number p = number_of (parse_float p.val) p
  primary_of rec Token.lparen p =
      (do next; e ← rec; consume rparen (codes "expect ')' after expression"); pure (group e)) p
  primary_of rec tok p = errorf (Message.unknown tok) p

  unfoldable pub primary : M E → M E
  unfolding primary_of number_of
  primary rec p = primary_of rec p.tok p

  unfoldable pub unary_expr : M E → M E
  unary_expr rec p =
      if matches (dec ∷ []) p
      then (do next; expect (number ∷ []); e ← primary rec; pure (unary p.tok e)) p
      else (do expect (number ∷ Token.nil ∷ []); primary rec) p

  -- With a unit of measure, if a name follows.
  measured : M E → E → M E
  measured rec e p =
      if matches (string ∷ []) p then (do r ← primary rec; pure (value e r)) p else ok (e, p)

  unfoldable pub value_expr : M E → M E
  unfolding measured
  value_expr rec = do e ← unary_expr rec; measured rec e

  compared : M E → E → M E
  compared rec e p =
      if matches comparisons p
      then (do next; r ← value_expr rec; pure (comp e p.tok r)) p
      else ok (e, p)

  unfoldable pub compare : M E → M E
  unfolding compared
  compare rec = do e ← primary rec; compared rec e

  -- The loop over `&&` returns in its first round.
  conjoined : M E → E → M E
  conjoined rec e p =
      if matches (Token.and ∷ []) p
      then (do next; r ← compare rec; pure (logic e Token.and r)) p
      else if matches (Token.or ∷ rparen ∷ eol ∷ []) p
      then ok (e, p)
      else errorf (Message.expecting_end p.tok) p

  unfoldable pub and_expr : M E → M E
  unfolding conjoined
  and_expr rec = do e ← compare rec; conjoined rec e

  -- The loop over `||`.
  unfoldable pub or_loop : ℕ → M E → E → M E
  or_loop zero rec e p = out_of_fuel
  or_loop (suc f) rec e p =
      let round = (do next; r ← and_expr rec; or_loop f rec (logic e Token.or r)) p in
      if matches (Token.or ∷ []) p then round else ok (e, p)

  unfoldable pub or_expr : ℕ → M E → M E
  or_expr f rec = do e ← and_expr rec; or_loop f rec e

  unfoldable pub expression : ℕ → M E
  expression zero p = out_of_fuel
  expression (suc f) p = or_expr f (expression f) p

  -- `p.next()`, and the expression that the text begins with.
  unfoldable pub parse : Bytes → Result E
  parse src =
      let p : Parser = record { lexer = new_lexer src; pos = 0; tok = illegal; val = [] } in
      Outcome.first ((do next; expression (length src + 2)) p)
