-- ===== src/Interpreter/Parser/Atoms.antt =====
-- The methods of `*parser` from `primary` to `value`.
use flotta_device_worker_ng.Base.{
  ℕ, ◌≤◌, ◌<◌, ◌≡◌, refl, sym, subst, true, Bool-cases, inl, inr, [], ◌∷◌, Option, none, some,
  Bytes, arith,
}
use flotta_device_worker_ng.Interpreter.Token.{
  Token, tok_eq, tok_eq→eq, lparen, dec, string, number,
}
use flotta_device_worker_ng.Interpreter.Float.{Float32}
use flotta_device_worker_ng.Interpreter.Expr.{Expr, literal, num, unary, value, group}
use flotta_device_worker_ng.Interpreter.Lexer.Loops.{IsValid}
use flotta_device_worker_ng.Interpreter.Parser.Outcome.{Parser, M, pure, ◌>>=◌, ◌>>◌}
use flotta_device_worker_ng.Interpreter.Parser.Grammar.{
  UnaryShape, ValueShape, OrShape, PrimaryShape,
}
use flotta_device_worker_ng.Interpreter.Parser.Ensures.{
  Ensures, holds, panics, Ensures-bind, Ensures-map, Ensures-if, left, Reaches, matched,
  next-Ensures, one_of, expect-Ensures, consume-Ensures,
}
use flotta_device_worker_ng.Interpreter.Parser.{
  matches, expect, next, E, number_of, primary_of, primary, unary_expr, measured, value_expr,
}

-- What `primary` returns at each token.
abbrev pub AtomOf : (F : Type 0) → Token → Expr F → Type 0
AtomOf F string e = (name : Bytes) × (e ≡ literal name)
AtomOf F Token.nil e = e ≡ Expr.nil
AtomOf F number e = (v : F) × (e ≡ num v)
AtomOf F lparen e = (inner : Expr F) × OrShape F inner × (e ≡ group inner)
AtomOf F _ e = ⊥

pub AtomOf-PrimaryShape : (F : Type 0) (t : Token) (e : Expr F) → AtomOf F t e → PrimaryShape F e
AtomOf-PrimaryShape F string e (name, q) = rw q (PrimaryShape.is_literal name)
AtomOf-PrimaryShape F Token.nil e q = rw q PrimaryShape.is_nil
AtomOf-PrimaryShape F number e (v, q) = rw q (PrimaryShape.is_num v)
AtomOf-PrimaryShape F lparen e (inner, s, q) = rw q (PrimaryShape.is_group s)
AtomOf-PrimaryShape F _ e q = absurd q

-- The methods above one call of `expression`, whose text is shorter than theirs.
module _ (fl : Float32) (rec : M (E fl)) (n : ℕ)
    (rec-Ensures : (p : Parser) (m : ℕ)
      → IsValid p.lexer
      → left p ≤ m
      → m < n
      → Ensures (Reaches (OrShape fl.Carrier) m) (rec p)) where
  number_of-Ensures :
      (o : Option fl.Carrier) (p : Parser) (m : ℕ)
      → p.tok ≡ number
      → IsValid p.lexer
      → left p ≤ m
      → Ensures (Reaches (AtomOf fl.Carrier number) m) (number_of fl o p)
  unfolding number_of
  number_of-Ensures none p m e v b = panics _
  number_of-Ensures (some x) p m e v b =
      Ensures-bind (next-Ensures p m v b (rw e refl))
        λ (_, q) (w, l). holds (record { shape = (x, refl); valid = w; bounded = omega arith })

  primary_of-Ensures :
      (t : Token) (p : Parser) (m : ℕ)
      → p.tok ≡ t
      → IsValid p.lexer
      → left p ≤ m
      → m ≤ n
      → Ensures (Reaches (AtomOf fl.Carrier t) m) (primary_of fl rec t p)
  unfolding primary_of
  primary_of-Ensures string p m e v b c =
      Ensures-bind (next-Ensures p m v b (rw e refl))
        λ (_, q) (w, l). holds (record { shape = (p.val, refl); valid = w; bounded = omega arith })
  primary_of-Ensures Token.nil p m e v b c =
      Ensures-bind (next-Ensures p m v b (rw e refl))
        λ (_, q) (w, l). holds (record { shape = refl; valid = w; bounded = omega arith })
  primary_of-Ensures number p m e v b c = number_of-Ensures (fl.parse p.val) p m e v b
  primary_of-Ensures lparen p m e v b c =
      Ensures-bind (next-Ensures p m v b (rw e refl)) λ (_, q) (w, l).
        Ensures-bind (rec-Ensures q (left q) w (omega arith) (omega arith)) λ (inner, r) s.
          Ensures-bind (consume-Ensures r (left q) _ s.valid s.bounded) λ (_, u) (x, k).
            holds (record { shape = (inner, s.shape, refl); valid = x; bounded = omega arith })
  primary_of-Ensures _ p m e v b c = panics _

  pub primary-Ensures :
      (p : Parser) (m : ℕ)
      → IsValid p.lexer
      → left p ≤ m
      → m ≤ n
      → Ensures (Reaches (AtomOf fl.Carrier p.tok) m) (primary fl rec p)
  unfolding primary
  primary-Ensures p m = primary_of-Ensures p.tok p m refl

  -- `primary` at a token that is known.
  primary_at :
      (t : Token) (p : Parser) (m : ℕ)
      → p.tok ≡ t
      → IsValid p.lexer
      → left p ≤ m
      → m ≤ n
      → Ensures (Reaches (AtomOf fl.Carrier t) m) (primary fl rec p)
  unfolding primary
  primary_at t p m e v b c =
      subst (λ k. Ensures (Reaches (AtomOf fl.Carrier t) m) (primary_of fl rec k p)) (sym e)
        (primary_of-Ensures t p m e v b c)

  negated-Ensures :
      (p : Parser) (m : ℕ)
      → matches (dec ∷ []) p ≡ true
      → IsValid p.lexer
      → left p ≤ m
      → m ≤ n
      → Ensures
          (Reaches UnaryShape m)
          ((do next; expect (number ∷ []); e ← primary fl rec; pure (unary p.tok e)) p)
  negated-Ensures p m h v b c =
      Ensures-bind (next-Ensures p m v b (matched (dec ∷ []) p refl h)) λ (_, q) (w, l).
        Ensures-bind (expect-Ensures (number ∷ []) q) λ (_, r) (same, k). rw same (
          Ensures-bind (primary_at number q m (one_of number q k) w (omega arith) c) λ (e, u) s.
            holds (record {
              shape = negated p.tok e (one_of dec p h) s.shape;
              valid = s.valid;
              bounded = s.bounded;
            }))
    where
      negated :
          (t : Token) (e : E fl) → t ≡ dec → AtomOf fl.Carrier number e → UnaryShape (unary t e)
      negated t e k (x, q) = rw (k, q) (UnaryShape.negated x)

  plain-Ensures :
      (p : Parser) (m : ℕ)
      → IsValid p.lexer
      → left p ≤ m
      → m ≤ n
      → Ensures (Reaches UnaryShape m) ((do expect (number ∷ Token.nil ∷ []); primary fl rec) p)
  plain-Ensures p m v b c =
      Ensures-bind (expect-Ensures (number ∷ Token.nil ∷ []) p) λ (_, q) (same, k).
        rw same (elim (Bool-cases (tok_eq p.tok number)) [
          | inl e ↦
              Ensures-map
                (λ (x, q) s. record {
                  shape = number_shape x s.shape;
                  valid = s.valid;
                  bounded = s.bounded;
                })
                (primary_at number p m (tok_eq→eq p.tok number e) v b c)
          | inr e ↦
              Ensures-map
                (λ (x, q) s. record {
                  shape = null_shape x s.shape;
                  valid = s.valid;
                  bounded = s.bounded;
                })
                (primary_at Token.nil p m (one_of Token.nil p (rw e at k)) v b c)
        ])
    where
      number_shape : (e : E fl) → AtomOf fl.Carrier number e → UnaryShape e
      number_shape e (x, q) = rw q (UnaryShape.number x)

      null_shape : (e : E fl) → AtomOf fl.Carrier Token.nil e → UnaryShape e
      null_shape e q = rw q UnaryShape.null

  unary-Ensures :
      (p : Parser) (m : ℕ)
      → IsValid p.lexer
      → left p ≤ m
      → m ≤ n
      → Ensures (Reaches UnaryShape m) (unary_expr fl rec p)
  unfolding unary_expr
  unary-Ensures p m v b c =
      Ensures-if (matches (dec ∷ []) p) (λ h. negated-Ensures p m h v b c) (plain-Ensures p m v b c)

  measured-Ensures :
      (e : E fl) (p : Parser) (m : ℕ)
      → UnaryShape e
      → IsValid p.lexer
      → left p ≤ m
      → m ≤ n
      → Ensures (Reaches ValueShape m) (measured fl rec e p)
  unfolding measured
  measured-Ensures e p m sh v b c =
      Ensures-if (matches (string ∷ []) p)
        (λ h. Ensures-bind (primary_at string p m (one_of string p h) v b c) λ (r, q) s.
          holds (record { shape = with_unit r s.shape; valid = s.valid; bounded = s.bounded }))
        (holds (record { shape = ValueShape.plain sh; valid = v; bounded = b }))
    where
      with_unit : (r : E fl) → AtomOf fl.Carrier string r → ValueShape (value e r)
      with_unit r (name, q) = rw q (ValueShape.measured name sh)

  pub value-Ensures :
      (p : Parser) (m : ℕ)
      → IsValid p.lexer
      → left p ≤ m
      → m ≤ n
      → Ensures (Reaches ValueShape m) (value_expr fl rec p)
  unfolding value_expr
  value-Ensures p m v b c =
      Ensures-bind (unary-Ensures p m v b c)
        λ (e, q) s. measured-Ensures e q m s.shape s.valid s.bounded c
