-- ===== src/Interpreter/Lexer.antt =====
-- internal/configuration/interpreter/lexer.go. A method that mutates `*lexer` returns the new
-- record. The loops run on fuel, `length src + 1` rounds, which Lexer/Refine shows to be enough.
pub mod Loops
pub mod Listed
pub mod Refine
use flotta_device_worker_ng.Base.{
  ℕ, zero, suc, ◌+◌, ◌-◌, Bool, true, false, ◌&&◌, ◌||◌, List, [], ◌∷◌, ◌++◌, ltb, leb, ◌==◌,
  if◌then◌else◌, length, get_or, take, drop, Bytes, codes, str_eq,
}
use flotta_device_worker_ng.Interpreter.Token.{
  Token, illegal, eol, lparen, rparen, dec, equals, not_equals, gte, greater, lte, less, string,
  number, nil,
}

pub record Lexer : Type 0 where
  pub src : Bytes
  pub ch : ℕ
  pub offset : ℕ
  pub pos : ℕ
  pub next_pos : ℕ

abbrev pub is_alpha : ℕ → Bool
is_alpha ch = (leb b'a' ch && leb ch b'z') || (leb b'A' ch && leb ch b'Z')

abbrev pub is_symbol : ℕ → Bool
is_symbol ch = (ch == b'_') || (ch == b'%')

abbrev pub is_digit : ℕ → Bool
is_digit ch = leb b'0' ch && leb ch b'9'

-- Load the next character into `ch`, or 0 at the end of the input.
unfoldable pub next : Lexer → Lexer
next l =
    if leb (length l.src) l.offset
    then if l.ch == 0
      then record l { pos = l.next_pos }
      else record l { pos = l.next_pos; ch = 0; offset = l.offset + 1; next_pos = l.next_pos + 1 }
    else record l {
      pos = l.next_pos;
      ch = get_or l.src l.offset 0;
      offset = l.offset + 1;
      next_pos = l.next_pos + 1;
    }

unfoldable pub new_lexer : Bytes → Lexer
unfolding next
new_lexer src = next (record { src = src; ch = 0; offset = 0; pos = 0; next_pos = 0 })

abbrev pub is_blank : ℕ → Bool
is_blank ch = (ch == b' ') || (ch == 0x09)

abbrev pub is_name : ℕ → Bool
is_name ch = is_alpha ch || is_digit ch || is_symbol ch

abbrev pub is_numeric : ℕ → Bool
is_numeric ch = is_digit ch || (ch == b'.')

-- `for p(l.ch) { l.next() }`.
unfoldable pub skip : (ℕ → Bool) → ℕ → Lexer → Lexer
skip p zero l = l
skip p (suc f) l = elim (p l.ch) [ true ↦ skip p f (next l) | false ↦ l ]

-- The loop that collects a number and counts its dots.
unfoldable pub collect : ℕ → Bytes → ℕ → Lexer → Bytes × ℕ × Lexer
collect zero chars dots l = (chars, dots, l)
collect (suc f) chars dots l = elim (is_numeric l.ch) [
  | true ↦ collect f (chars ++ l.ch ∷ []) (if l.ch == b'.' then dots + 1 else dots) (next l)
  | false ↦ (chars, dots, l)
]

-- `src[i:j]`.
abbrev pub slice : Bytes → ℕ → ℕ → Bytes
slice src i j = take (j - i) (drop i src)

abbrev pub fuel : Lexer → ℕ
fuel l = length l.src + 1

-- A keyword or a name; `l` stands behind its first character.
unfoldable pub scan_name : ℕ → Lexer → ℕ × Token × Bytes × Lexer
scan_name pos l =
    let start = l.offset - 2 in
    let l' = skip is_name (fuel l) l in
    let name = slice l'.src start (l'.offset - 1) in
    if str_eq name (codes "nil") then (pos, nil, name, l') else (pos, string, name, l')

-- A number; more than one dot makes it illegal.
unfoldable pub scan_number : ℕ → Lexer → Token × Bytes × Lexer
scan_number ch l =
    let (chars, dots, l') = collect (fuel l) (ch ∷ []) 0 l in
    (if ltb 1 dots then illegal else number, chars, l')

-- An operator of one or two characters: `two` if the next character is `second`.
unfoldable pub scan_two : ℕ → Token → Token → Lexer → Token × Bytes × Lexer
scan_two second two one l = if l.ch == second then (two, [], next l) else (one, [], l)

-- The `switch` on the character read, over the lexer that stands behind it.
unfoldable pub scan_symbol : ℕ → Lexer → Token × Bytes × Lexer
scan_symbol ch l =
    if is_digit ch
    then scan_number ch l
    else if ch == b'('
    then (lparen, [], l)
    else if ch == b')'
    then (rparen, [], l)
    else if ch == b'-'
    then (dec, [], l)
    else if ch == b'!'
    then scan_two b'=' not_equals illegal l
    else if ch == b'='
    then scan_two b'=' equals illegal l
    else if ch == b'<'
    then scan_two b'=' lte less l
    else if ch == b'>'
    then scan_two b'=' gte greater l
    else if ch == b'&'
    then scan_two b'&' Token.and illegal l
    else if ch == b'|'
    then scan_two b'|' Token.or illegal l
    else (illegal, codes "unexpected char", l)

-- What `Scan` does once the blanks are skipped.
unfoldable pub scan_token : Lexer → ℕ × Token × Bytes × Lexer
scan_token l =
    let l' = next l in
    if l.ch == 0
    then (l.pos, eol, [], l)
    else if is_alpha l.ch || is_symbol l.ch
    then scan_name l.pos l'
    else let (tok, val, l'') = scan_symbol l.ch l' in (l''.pos, tok, val, l'')

-- `Scan`: the position, the token, its text and the lexer behind it.
unfoldable pub scan : Lexer → ℕ × Token × Bytes × Lexer
scan l = scan_token (skip is_blank (fuel l) l)
