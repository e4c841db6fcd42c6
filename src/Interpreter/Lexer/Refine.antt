-- ===== src/Interpreter/Lexer/Refine.antt =====
-- The lexer against a scanner of plain lists.
use flotta_device_worker_ng.Base.{
  ℕ, suc, ◌-◌, ◌<◌, ◌≡◌, refl, Bool, true, false, ◌||◌, [], ◌∷◌, leb, ◌==◌, if◌then◌else◌, length,
  length-drop, take_while, Bytes, codes, str_eq, head_or, tail, take-length-take_while, arith,
  Bool-cases, inl, inr, sym, ap, ap₂, ◌∙◌, drop, take,
}
use flotta_device_worker_ng.Interpreter.Token.{
  Token, illegal, eol, lparen, rparen, dec, equals, not_equals, gte, greater, lte, less,
}
use flotta_device_worker_ng.Interpreter.Lexer.{
  Lexer, is_alpha, is_symbol, is_digit, is_name, is_numeric, is_blank, scan, scan_token,
  scan_symbol, scan_number, scan_name, scan_two, next, skip, new_lexer, fuel, slice,
}
use flotta_device_worker_ng.Interpreter.Lexer.Loops.{
  rest, IsValid, Advances, next-Advances, Skips, skip-Skips, collect-eq-skip,
}
use flotta_device_worker_ng.Interpreter.Lexer.Listed.{
  Scanned, two_list, number_list, symbol_list, word_list, token_list, scan_list,
}

-- What a result of the lexer, begun at `l`, says of the list that `l` stood on.
pub record Refines (l : Lexer) (r : Token × Bytes × Lexer) (s : Scanned) : Type 0 where
  pub token : r.0 ≡ s.0
  pub text : r.1 ≡ s.1
  pub left : rest r.2 ≡ s.2
  pub same : r.2.src ≡ l.src
  pub valid : IsValid r.2

-- The lexer stands still.
stay :
    (l : Lexer) (tok : Token) (val xs : Bytes)
    → IsValid l
    → rest l ≡ xs
    → Refines l (tok, val, l) (tok, val, xs)
stay l tok val xs v e = record { token = refl; text = refl; left = e; same = refl; valid = v }

eq_nonzero : (a b : ℕ) → (b == 0) ≡ false → (a == b) ≡ true → (a == 0) ≡ false
eq_nonzero a b z e = ground arith

two-Refines :
    (second : ℕ) (two one : Token) (l : Lexer)
    → (second == 0) ≡ false
    → IsValid l
    → Refines l (scan_two second two one l) (two_list second two one (rest l))
unfolding scan_two
two-Refines second two one l z v = rw (← v.current) (elim (Bool-cases (l.ch == second)) [
  | inl e ↦
      let a = next-Advances l v (eq_nonzero l.ch second z e) in
      rw e (record {
        token = refl;
        text = refl;
        left = sym (ap tail a.split);
        same = a.same;
        valid = a.valid;
      })
  | inr e ↦ rw e (stay l one [] (rest l) v refl)
])

number-Refines :
    (c : ℕ) (l : Lexer)
    → length (rest l) < fuel l
    → IsValid l
    → Refines l (scan_number c l) (number_list c (rest l))
unfolding scan_number
number-Refines c l h v =
    let s = skip-Skips is_numeric (fuel l) l refl v h in
    rw (collect-eq-skip (fuel l) (c ∷ []) 0 l v h)
      (record { token = ground arith; text = refl; left = s.left; same = s.same; valid = s.valid })

branch :
    (b : Bool) {l : Lexer} {x y : Token × Bytes × Lexer} {s t : Scanned}
    → Refines l x s
    → Refines l y t
    → Refines l (if b then x else y) (if b then s else t)
branch true p q = p
branch false p q = q

symbol-Refines :
    (c : ℕ) (l : Lexer)
    → length (rest l) < fuel l
    → IsValid l
    → Refines l (scan_symbol c l) (symbol_list c (rest l))
unfolding scan_symbol
symbol-Refines c l h v = branch (is_digit c) (number-Refines c l h v) (
    branch (c == b'(') (stay l lparen [] (rest l) v refl) (
      branch (c == b')') (stay l rparen [] (rest l) v refl) (
        branch (c == b'-') (stay l dec [] (rest l) v refl) (
          branch (c == b'!') (two-Refines b'=' not_equals illegal l refl v) (
            branch (c == b'=') (two-Refines b'=' equals illegal l refl v) (
              branch (c == b'<') (two-Refines b'=' lte less l refl v) (
                branch (c == b'>') (two-Refines b'=' gte greater l refl v) (
                  branch (c == b'&') (two-Refines b'&' Token.and illegal l refl v) (
                    branch (c == b'|') (two-Refines b'|' Token.or illegal l refl v)
                      (stay l illegal (codes "unexpected char") (rest l) v refl))))))))))

-- A scan without its position.
abbrev pub unplaced : ℕ × Token × Bytes × Lexer → Token × Bytes × Lexer
unplaced r = (r.1, r.2, r.3)

take_word :
    (c : ℕ) (xs r : Bytes)
    → xs ≡ c ∷ r
    → take (suc (length (take_while is_name r))) xs ≡ c ∷ take_while is_name r
take_word c xs r e = rw e (ap (λ t. c ∷ t) (take-length-take_while is_name r))

-- The slice between the offsets is the word that the loop ran over.
slice-word :
    (l m : Lexer)
    → (l.ch == 0) ≡ false
    → IsValid l
    → Advances l (next l)
    → Skips is_name (next l) m
    → slice m.src ((next l).offset - 2) (m.offset - 1) ≡ l.ch ∷ take_while is_name (rest (next l))
slice-word l m z v a s =
    let width : m.offset - 1 - ((next l).offset - 2)
        ≡ suc (length (take_while is_name (rest (next l)))) =
      omega (arith, s.ahead, a.ahead, v.started z) in
    let from : (next l).offset - 2 ≡ l.offset - 1 = omega (arith, a.ahead, v.started z) in
    ap₂ (λ n xs. take n xs) width (ap₂ (λ n xs. drop n xs) from (s.same ∙ a.same))
    ∙ take_word l.ch (rest l) (rest (next l)) a.split

name-Refines :
    (pos : ℕ) (l : Lexer)
    → (l.ch == 0) ≡ false
    → length (rest (next l)) < fuel (next l)
    → IsValid l
    → Refines l (unplaced (scan_name pos (next l))) (word_list l.ch (rest (next l)))
unfolding scan_name
name-Refines pos l z h v =
    let a = next-Advances l v z in
    let s = skip-Skips is_name (fuel (next l)) (next l) refl a.valid h in
    rw (slice-word l (skip is_name (fuel (next l)) (next l)) z v a s)
      (elim (Bool-cases (str_eq (l.ch ∷ take_while is_name (rest (next l))) (codes "nil"))) [
        | inl e ↦ rw e (record {
          token = refl;
          text = refl;
          left = s.left;
          same = s.same ∙ a.same;
          valid = s.valid;
        })
        | inr e ↦ rw e (record {
          token = refl;
          text = refl;
          left = s.left;
          same = s.same ∙ a.same;
          valid = s.valid;
        })
      ])

-- What is left of the text is within the fuel.
pub within : (l : Lexer) → length (rest l) < fuel l
within l = omega (arith, length-drop (l.offset - 1) l.src)

moved :
    (l : Lexer) {r : Token × Bytes × Lexer} {s : Scanned}
    → Advances l (next l)
    → Refines (next l) r s
    → Refines l r s
moved l a p = record {
  token = p.token;
  text = p.text;
  left = p.left;
  same = p.same ∙ a.same;
  valid = p.valid;
}

pick :
    (b : Bool) (pos : ℕ) {l : Lexer} (x : ℕ × Token × Bytes × Lexer) (y : Token × Bytes × Lexer)
    {s t : Scanned}
    → Refines l (unplaced x) s
    → Refines l y t
    → Refines l (unplaced (if b then x else (y.2.pos, y.0, y.1, y.2))) (if b then s else t)
pick true pos x y p q = p
pick false pos x y p q = q

end_list : (xs : Bytes) → (head_or 0 xs == 0) ≡ true → token_list xs ≡ (eol, [], xs)
end_list [] h = refl
end_list (x ∷ xs) h = rw h

at_end : (l : Lexer) → IsValid l → (l.ch == 0) ≡ true → Refines l (eol, [], l) (token_list (rest l))
at_end l v e = rw (end_list (rest l) (rw v.current at e)) (stay l eol [] (rest l) v refl)

-- From the character that it stands on, the lexer finds what the list scanner finds.
token-Refines : (l : Lexer) → IsValid l → Refines l (unplaced (scan_token l)) (token_list (rest l))
unfolding scan_token
token-Refines l v = elim (Bool-cases (l.ch == 0)) [
  | inl e ↦ rw (e, scan_token) (at_end l v e)
  | inr z ↦
      let a = next-Advances l v z in
      let enough : length (rest (next l)) < fuel (next l) = within (next l) in
      rw (z, scan_token, a.split, z)
        (pick (is_alpha l.ch || is_symbol l.ch) l.pos _ _ (name-Refines l.pos l z enough v)
          (moved l a (symbol-Refines l.ch (next l) enough a.valid)))
]

-- For every lexer that is valid, `scan` returns the token and the text that the list scanner
-- finds in what is left of the input, stands on what it leaves, over the same source, and is valid.
pub scan-Refines : (l : Lexer) → IsValid l → Refines l (unplaced (scan l)) (scan_list (rest l))
unfolding scan scan_list
scan-Refines l v =
    let s = skip-Skips is_blank (fuel l) l refl v (within l) in
    let t = token-Refines (skip is_blank (fuel l) l) s.valid in
    record {
      token = rw (← s.left) t.token;
      text = rw (← s.left) t.text;
      left = rw (← s.left) t.left;
      same = t.same ∙ s.same;
      valid = t.valid;
    }

-- A new lexer is valid and stands on the whole source.
pub new_lexer-IsValid : (src : Bytes) → IsValid (new_lexer src) × (rest (new_lexer src) ≡ src)
unfolding new_lexer next
new_lexer-IsValid [] = (record { started = λ h. cc; bounded = omega arith; current = refl }, refl)
new_lexer-IsValid (c ∷ src) =
    let nonempty : leb (length (c ∷ src)) 0 ≡ false = ground arith in
    rw (nonempty, new_lexer, next)
      (record { started = λ _. omega arith; bounded = omega arith; current = refl }, refl)
