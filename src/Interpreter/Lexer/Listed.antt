-- ===== src/Interpreter/Lexer/Listed.antt =====
-- A scanner of plain lists of bytes, and that it takes text away.
use flotta_device_worker_ng.Base.{
  ℕ, ◌+◌, ◌≤◌, ◌||◌, [], ◌∷◌, ltb, ◌==◌, if◌then◌else◌, length, length-drop_while-le, take_while,
  drop_while, Bytes, codes, str_eq, head_or, tail, arith,
}
use flotta_device_worker_ng.Interpreter.Token.{
  Token, tok_eq, illegal, eol, lparen, rparen, dec, equals, not_equals, gte, greater, lte, less,
  string, number, nil,
}
use flotta_device_worker_ng.Interpreter.Lexer.{
  is_alpha, is_symbol, is_digit, is_name, is_numeric, is_blank,
}
use flotta_device_worker_ng.Interpreter.Lexer.Loops.{dots_in}

-- A scan of a list: the token, its text and the list behind it.
abbrev pub Scanned : Type 0
Scanned = Token × Bytes × Bytes

abbrev pub two_list : ℕ → Token → Token → Bytes → Scanned
two_list second two one r = if head_or 0 r == second then (two, [], tail r) else (one, [], r)

abbrev pub number_list : ℕ → Bytes → Scanned
number_list c r = (
  if ltb 1 (dots_in (take_while is_numeric r)) then illegal else number,
  c ∷ take_while is_numeric r,
  drop_while is_numeric r,
)

abbrev pub symbol_list : ℕ → Bytes → Scanned
symbol_list c r =
    if is_digit c
    then number_list c r
    else if c == b'('
    then (lparen, [], r)
    else if c == b')'
    then (rparen, [], r)
    else if c == b'-'
    then (dec, [], r)
    else if c == b'!'
    then two_list b'=' not_equals illegal r
    else if c == b'='
    then two_list b'=' equals illegal r
    else if c == b'<'
    then two_list b'=' lte less r
    else if c == b'>'
    then two_list b'=' gte greater r
    else if c == b'&'
    then two_list b'&' Token.and illegal r
    else if c == b'|'
    then two_list b'|' Token.or illegal r
    else (illegal, codes "unexpected char", r)

abbrev pub word_list : ℕ → Bytes → Scanned
word_list c r =
    let word = c ∷ take_while is_name r in
    (if str_eq word (codes "nil") then nil else string, word, drop_while is_name r)

-- A byte 0 ends the input.
abbrev pub token_list : Bytes → Scanned
token_list [] = (eol, [], [])
token_list (c ∷ r) =
    if c == 0
    then (eol, [], c ∷ r)
    else if is_alpha c || is_symbol c
    then word_list c r
    else symbol_list c r

unfoldable pub scan_list : Bytes → Scanned
scan_list xs = token_list (drop_while is_blank xs)

symbol_list_le : (c : ℕ) (r : Bytes) → length (symbol_list c r).2 ≤ length r
symbol_list_le c r = ground (arith, length-drop_while-le is_numeric r)

token_list_shrinks :
    (xs : Bytes)
    → length (token_list xs).2 + (if tok_eq (token_list xs).0 eol then 0 else 1) ≤ length xs
token_list_shrinks [] = omega arith
token_list_shrinks (c ∷ r) = ground (arith, symbol_list_le c r, length-drop_while-le is_name r)

-- A scan that finds a token leaves less text, and one that finds the end leaves no more.
pub scan_list_shrinks :
    (xs : Bytes)
    → length (scan_list xs).2 + (if tok_eq (scan_list xs).0 eol then 0 else 1) ≤ length xs
unfolding scan_list
scan_list_shrinks xs =
    omega (arith, token_list_shrinks (drop_while is_blank xs), length-drop_while-le is_blank xs)
