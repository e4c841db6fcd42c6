-- ===== src/Interpreter/Parser/Ensures.antt =====
-- What a method of `*parser` ensures of the parser that it returns, and the methods that read tokens.
use flotta_device_worker_ng.Base.{
  ℕ, ◌+◌, ◌≤◌, ◌<◌, ◌≡◌, refl, ap, subst, Bool, true, false, ◌||◌, Bool-cases, inl, inr, List, [],
  ◌∷◌, if◌then◌else◌, length, Bytes, arith,
}
use flotta_device_worker_ng.Interpreter.Token.{
  Token, tok_eq, tok_eq→eq, illegal, eol, rparen, equals, not_equals, gte, greater, lte, less,
}
use flotta_device_worker_ng.Interpreter.Lexer.{scan}
use flotta_device_worker_ng.Interpreter.Lexer.Loops.{rest, IsValid}
use flotta_device_worker_ng.Interpreter.Lexer.Listed.{scan_list_shrinks}
use flotta_device_worker_ng.Interpreter.Lexer.Refine.{scan-Refines}
use flotta_device_worker_ng.Interpreter.Parser.Outcome.{Result, ok, err, ParseError, Parser, bind}
use flotta_device_worker_ng.Interpreter.Parser.Grammar.{IsComparison}
use flotta_device_worker_ng.Interpreter.Parser.{matches, expect, consume, next}

-- The method kept within its fuel, and `P` holds of its result if it did not panic.
pub data Ensures {ℓ κ} {A : Type ℓ} (P : A → Type κ) : Result A → Type (ℓ ⊔ κ) where
  panics : (e : ParseError) → Ensures P (err e)
  holds : {a : A} → P a → Ensures P (ok a)

module _ {ℓ κ} {A : Type ℓ} {P : A → Type κ} where
  pub Ensures-map {μ} :
      {Q : A → Type μ} {m : Result A} → ((a : A) → P a → Q a) → Ensures P m → Ensures Q m
  Ensures-map f (panics e) = panics e
  Ensures-map f (holds {a} h) = holds (f a h)

  pub Ensures-bind {ν μ} :
      {C : Type ν} {Q : C → Type μ} {m : Result A} {next : A → Result C}
      → Ensures P m
      → ((a : A) → P a → Ensures Q (next a))
      → Ensures Q (bind m next)
  Ensures-bind (panics e) step = panics e
  Ensures-bind (holds {a} h) step = step a h

  pub Ensures-ok : {m : Result A} {a : A} → Ensures P m → m ≡ ok a → P a
  Ensures-ok (panics e) q = cc
  Ensures-ok (holds h) q = subst P (cc) h

  pub Ensures-if :
      (test : Bool) {m n : Result A}
      → (test ≡ true → Ensures P m)
      → Ensures P n
      → Ensures P (if test then m else n)
  Ensures-if false then_holds else_holds = else_holds
  Ensures-if true then_holds else_holds = then_holds refl

-- What is left to parse: the text behind the current token, and the token unless it is the end.
unfoldable pub left : Parser → ℕ
left p = length (rest p.lexer) + (if tok_eq p.tok eol then 0 else 1)

-- A parser that came from `p` with a result in `P`, over no more text.
pub record Reaches {ℓ} {A : Type ℓ} (P : A → Type 0) (n : ℕ) (r : A × Parser) : Type ℓ where
  pub shape : P r.0
  pub valid : IsValid r.1.lexer
  pub bounded : left r.1 ≤ n

-- A token among given ones, none of which is the end, is not the end.
pub matched :
    (ops : List Token) (p : Parser)
    → matches ops (record p { tok = eol }) ≡ false
    → matches ops p ≡ true
    → tok_eq p.tok eol ≡ false
matched ops p z h = elim (Bool-cases (tok_eq p.tok eol)) [
  | inl e ↦ cc (z, ap (λ t. matches ops (record p { tok = t })) (tok_eq→eq p.tok eol e), h)
  | inr e ↦ e
]

-- Reading a token that is not behind the end leaves less.
pub next-Ensures :
    (p : Parser) (n : ℕ)
    → IsValid p.lexer
    → left p ≤ n
    → tok_eq p.tok eol ≡ false
    → Ensures (λ r. IsValid r.1.lexer × (left r.1 < n)) (next p)
unfolding left next
next-Ensures p n v b t =
    let s = scan-Refines p.lexer v in
    let shrinks : length (rest (scan p.lexer).3) + (if tok_eq (scan p.lexer).1 eol then 0 else 1)
        ≤ length (rest p.lexer) =
      rw (s.left, s.token) (scan_list_shrinks (rest p.lexer)) in
    let less : left p ≡ length (rest p.lexer) + 1 = rw t refl in
    elim (Bool-cases (tok_eq (scan p.lexer).1 illegal)) [
      | inl e ↦ rw e (panics _)
      | inr e ↦ rw e (holds (s.valid, omega (arith, shrinks, less, b)))
    ]

pub one_of : (t : Token) (p : Parser) → matches (t ∷ []) p ≡ true → p.tok ≡ t
one_of t p h = tok_eq→eq p.tok t (ground (arith, h))

pub expect-Ensures :
    (ops : List Token) (p : Parser)
    → Ensures (λ r. (r.1 ≡ p) × (matches ops p ≡ true)) (expect ops p)
expect-Ensures ops p = Ensures-if (matches ops p) (λ h. holds (refl, h)) (panics _)

pub consume-Ensures :
    (p : Parser) (m : ℕ) (msg : Bytes)
    → IsValid p.lexer
    → left p ≤ m
    → Ensures (λ r. IsValid r.1.lexer × (left r.1 < m)) (consume rparen msg p)
consume-Ensures p m msg v b =
    Ensures-if (matches (rparen ∷ []) p)
      (λ h. next-Ensures p m v b (matched (rparen ∷ []) p refl h)) (panics _)

pub IsComparison-of :
    (t : Token)
    → (tok_eq t greater
        || (tok_eq t gte
            || (tok_eq t less
                || (tok_eq t lte || (tok_eq t equals || (tok_eq t not_equals || false))))))
      ≡ true
    → IsComparison t
IsComparison-of equals h = IsComparison.is_equals
IsComparison-of not_equals h = IsComparison.is_not_equals
IsComparison-of gte h = IsComparison.is_gte
IsComparison-of greater h = IsComparison.is_greater
IsComparison-of lte h = IsComparison.is_lte
IsComparison-of less h = IsComparison.is_less
IsComparison-of _ h = cc
