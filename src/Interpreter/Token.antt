-- ===== src/Interpreter/Token.antt =====
-- internal/configuration/interpreter/token.go: the tokens of the expression language.
use flotta_device_worker_ng.Base.{
  ℕ, Bool, ◌==◌, ==_iff, Bytes, codes, ◌≡◌, refl, ap, sym, ◌∙◌, true, List, [], ◌∷◌, get_or,
}

pub data Token : Type 0 where
  illegal eol lparen rparen percent dec and equals not_equals div gte greater lte less or : Token
  string number nil : Token

-- The value that `iota` gives a token.
abbrev pub ordinal : Token → ℕ
ordinal illegal = 0
ordinal eol = 1
ordinal lparen = 2
ordinal rparen = 3
ordinal percent = 4
ordinal dec = 5
ordinal and = 6
ordinal equals = 7
ordinal not_equals = 8
ordinal div = 9
ordinal gte = 10
ordinal greater = 11
ordinal lte = 12
ordinal less = 13
ordinal or = 14
ordinal string = 15
ordinal number = 16
ordinal nil = 17

-- `tokenNames`, and the method `String` that reads it.
unfoldable pub token_string : Token → Bytes
token_string illegal = codes "illegal"
token_string eol = codes "EOL"
token_string lparen = codes "("
token_string rparen = codes ")"
token_string percent = codes "%"
token_string dec = codes "-"
token_string and = codes "&&"
token_string div = codes "/"
token_string equals = codes "=="
token_string not_equals = codes "!="
token_string gte = codes ">="
token_string greater = codes ">"
token_string lte = codes "<="
token_string less = codes "<"
token_string or = codes "||"
token_string string = codes "string"
token_string number = codes "number"
token_string nil = codes "nil"

-- `==` on tokens compares their integers.
abbrev pub tok_eq : Token → Token → Bool
tok_eq a b = ordinal a == ordinal b

-- The token of an integer.
abbrev of_ordinal : ℕ → Token
of_ordinal n = get_or all_tokens n illegal
  where
    all_tokens : List Token
    all_tokens =
        illegal ∷ eol ∷ lparen ∷ rparen ∷ percent ∷ dec ∷ and ∷ equals ∷ not_equals ∷ div ∷ gte
        ∷ greater ∷ lte ∷ less ∷ or ∷ string ∷ number ∷ nil ∷ []

of_ordinal-ordinal : (t : Token) → of_ordinal (ordinal t) ≡ t
of_ordinal-ordinal illegal = refl
of_ordinal-ordinal eol = refl
of_ordinal-ordinal lparen = refl
of_ordinal-ordinal rparen = refl
of_ordinal-ordinal percent = refl
of_ordinal-ordinal dec = refl
of_ordinal-ordinal and = refl
of_ordinal-ordinal equals = refl
of_ordinal-ordinal not_equals = refl
of_ordinal-ordinal div = refl
of_ordinal-ordinal gte = refl
of_ordinal-ordinal greater = refl
of_ordinal-ordinal lte = refl
of_ordinal-ordinal less = refl
of_ordinal-ordinal or = refl
of_ordinal-ordinal string = refl
of_ordinal-ordinal number = refl
of_ordinal-ordinal nil = refl

pub tok_eq→eq : (a b : Token) → tok_eq a b ≡ true → a ≡ b
tok_eq→eq a b h =
    sym (of_ordinal-ordinal a)
    ∙ ap of_ordinal ((==_iff (ordinal a) (ordinal b)).0 h)
    ∙ of_ordinal-ordinal b
