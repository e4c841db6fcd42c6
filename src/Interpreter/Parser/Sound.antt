-- ===== src/Interpreter/Parser/Sound.antt =====
-- The parser's fuel suffices for every input, and what it returns has the shape of the grammar.
use flotta_device_worker_ng.Base.{
  ℕ, zero, suc, ◌+◌, ◌≤◌, ◌<◌, ◌≡◌, refl, [], ◌∷◌, length, Bytes, arith,
}
use flotta_device_worker_ng.Interpreter.Token.{Token, illegal, eol, rparen}
use flotta_device_worker_ng.Interpreter.Float.{Float32}
use flotta_device_worker_ng.Interpreter.Expr.{logic}
use flotta_device_worker_ng.Interpreter.Lexer.{new_lexer}
use flotta_device_worker_ng.Interpreter.Lexer.Loops.{IsValid}
use flotta_device_worker_ng.Interpreter.Lexer.Refine.{new_lexer-IsValid}
use flotta_device_worker_ng.Interpreter.Parser.Outcome.{Parser, M}
use flotta_device_worker_ng.Interpreter.Parser.Grammar.{OrShape, AndShape, CompShape, PrimaryShape}
use flotta_device_worker_ng.Interpreter.Parser.Ensures.{
  Ensures, holds, panics, Ensures-bind, Ensures-map, Ensures-if, left, Reaches, matched,
  next-Ensures, IsComparison-of,
}
use flotta_device_worker_ng.Interpreter.Parser.{
  matches, E, comparisons, compared, compare, conjoined, and_expr, or_loop, or_expr, expression,
  parse,
}
use flotta_device_worker_ng.Interpreter.Parser.Atoms.{
  AtomOf-PrimaryShape, primary-Ensures, value-Ensures,
}

-- The methods above one call of `expression`, whose text is shorter than theirs.
module _ (fl : Float32) (rec : M (E fl)) (n : ℕ)
    (rec-Ensures : (p : Parser) (m : ℕ)
      → IsValid p.lexer
      → left p ≤ m
      → m < n
      → Ensures (Reaches (OrShape fl.Carrier) m) (rec p)) where
  compared-Ensures :
      (e : E fl) (p : Parser) (m : ℕ)
      → PrimaryShape fl.Carrier e
      → IsValid p.lexer
      → left p ≤ m
      → m ≤ n
      → Ensures (Reaches (CompShape fl.Carrier) m) (compared fl rec e p)
  unfolding compared
  compared-Ensures e p m sh v b c =
      Ensures-if (matches comparisons p)
        (λ h. Ensures-bind (next-Ensures p m v b (matched comparisons p refl h)) λ (_, q) (w, l).
          Ensures-bind (value-Ensures fl rec n rec-Ensures q m w (omega arith) c) λ (r, u) s.
            holds (record {
              shape = CompShape.compare sh (IsComparison-of p.tok h) s.shape;
              valid = s.valid;
              bounded = s.bounded;
            }))
        (holds (record { shape = CompShape.atom sh; valid = v; bounded = b }))

  compare-Ensures :
      (p : Parser) (m : ℕ)
      → IsValid p.lexer
      → left p ≤ m
      → m ≤ n
      → Ensures (Reaches (CompShape fl.Carrier) m) (compare fl rec p)
  unfolding compare
  compare-Ensures p m v b c =
      Ensures-bind (primary-Ensures fl rec n rec-Ensures p m v b c) λ (e, q) s.
        compared-Ensures e q m (AtomOf-PrimaryShape fl.Carrier p.tok e s.shape) s.valid s.bounded c

  conjoined-Ensures :
      (e : E fl) (p : Parser) (m : ℕ)
      → CompShape fl.Carrier e
      → IsValid p.lexer
      → left p ≤ m
      → m ≤ n
      → Ensures (Reaches (AndShape fl.Carrier) m) (conjoined fl rec e p)
  unfolding conjoined
  conjoined-Ensures e p m sh v b c =
      Ensures-if (matches (Token.and ∷ []) p)
        (λ h.
          Ensures-bind (next-Ensures p m v b (matched (Token.and ∷ []) p refl h)) λ (_, q) (w, l).
            Ensures-bind (compare-Ensures q m w (omega arith) c) λ (r, u) s. holds (record {
              shape = AndShape.conjoin sh s.shape;
              valid = s.valid;
              bounded = s.bounded;
            }))
        (Ensures-if (matches (Token.or ∷ rparen ∷ eol ∷ []) p)
          (λ h. holds (record { shape = AndShape.single sh; valid = v; bounded = b })) (panics _))

  and-Ensures :
      (p : Parser) (m : ℕ)
      → IsValid p.lexer
      → left p ≤ m
      → m ≤ n
      → Ensures (Reaches (AndShape fl.Carrier) m) (and_expr fl rec p)
  unfolding and_expr
  and-Ensures p m v b c =
      Ensures-bind (compare-Ensures p m v b c)
        λ (e, q) s. conjoined-Ensures e q m s.shape s.valid s.bounded c

  -- Each round of the loop reads a token, so more rounds than there are tokens are enough.
  or_loop-Ensures :
      (f : ℕ) (e : E fl) (p : Parser) (m : ℕ)
      → OrShape fl.Carrier e
      → IsValid p.lexer
      → left p ≤ m
      → m ≤ n
      → m < f
      → Ensures (Reaches (OrShape fl.Carrier) m) (or_loop fl f rec e p)
  unfolding or_loop
  or_loop-Ensures zero e p m sh v b c d = absurd (omega arith)
  or_loop-Ensures (suc f) e p m sh v b c d =
      Ensures-if (matches (Token.or ∷ []) p)
        (λ h.
          Ensures-bind (next-Ensures p m v b (matched (Token.or ∷ []) p refl h)) λ (_, q) (w, l).
            Ensures-bind (and-Ensures q (left q) w (omega arith) (omega arith)) λ (r, u) s.
              Ensures-map
                (λ _ t. record { shape = t.shape; valid = t.valid; bounded = omega arith })
                (or_loop-Ensures f (logic e Token.or r) u (left q) (OrShape.disjoin sh s.shape)
                  s.valid s.bounded (omega arith) (omega arith)))
        (holds (record { shape = sh; valid = v; bounded = b }))

  or-Ensures :
      (f : ℕ) (p : Parser) (m : ℕ)
      → IsValid p.lexer
      → left p ≤ m
      → m ≤ n
      → m < f
      → Ensures (Reaches (OrShape fl.Carrier) m) (or_expr fl f rec p)
  unfolding or_expr
  or-Ensures f p m v b c d =
      Ensures-bind (and-Ensures p m v b c)
        λ (e, q) s. or_loop-Ensures f e q m (OrShape.conjunct s.shape) s.valid s.bounded c d

-- With more fuel than text, `expression` returns a well-shaped expression over no more text, or
-- panics.
expression-Ensures :
    (fl : Float32) (f : ℕ) (p : Parser) (m : ℕ)
    → IsValid p.lexer
    → left p ≤ m
    → suc m < f
    → Ensures (Reaches (OrShape fl.Carrier) m) (expression fl f p)
unfolding expression
expression-Ensures fl zero p m v b d = absurd (omega arith)
expression-Ensures fl (suc f) p m v b d =
    or-Ensures fl (expression fl f) m (λ q k w c e. expression-Ensures fl f q k w c (omega arith)) f
      p m v b (omega arith) (omega arith)

start : Bytes → Parser
start src = record { lexer = new_lexer src; pos = 0; tok = illegal; val = [] }

left-start : (src : Bytes) → left (start src) ≡ length src + 1
unfolding left start
left-start src = rw (new_lexer-IsValid src).1 refl

-- For every source the parser ends: it returns an expression in the shape of the grammar, or the
-- error of a panic, and never runs out of its fuel.
pub parse-Ensures : (fl : Float32) (src : Bytes) → Ensures (OrShape fl.Carrier) (parse fl src)
unfolding parse start
parse-Ensures fl src =
    let (v, e) = new_lexer-IsValid src in
    let b : left (start src) ≤ length src + 1 = omega (arith, left-start src) in
    Ensures-bind {P = Reaches (OrShape fl.Carrier) (length src)}
      (Ensures-bind (next-Ensures (start src) (length src + 1) v b refl) λ (_, q) (w, l).
        expression-Ensures fl (length src + 2) q (length src) w (omega arith) (omega arith))
      (λ r s. holds s.shape)
