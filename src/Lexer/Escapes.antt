-- ===== src/Lexer/Escapes.antt =====
-- src/lexer/mod.rs: the pieces of a string literal and its escapes.
use y.Prelude.{
  ℕ, ◌+◌, ◌-◌, ◌*◌, ltb, leb, ◌==◌, if◌then◌else◌, Text, List, [], ◌∷◌, ◌++◌, is_empty, ◌&&◌, ◌||◌,
  Option, none, some,
}
use y.Source.{Pos, span_of, span_at}
use y.Lexer.Token.{Token, StrPart, literal, str}
use y.Lexer.State.{
  Lexer, peek, skip, report, is_char, is_hex_digit, expected_brace, invalid_hex_digit,
  invalid_unicode,
}
use y.Lexer.Scan.{take_while}

-- The pieces already cut and the literal run being read.
pub record Pieces : Type 0 where
  pub parts : List StrPart
  pub cur : Text

abbrev pub push : ℕ → Pieces → Pieces
push c s = record s { cur = s.cur ++ c ∷ [] }

-- `if !cur.is_empty() { parts.push(Literal(take(&mut cur))) }`
abbrev pub flush : Pieces → Pieces
flush s = if is_empty s.cur then s else record { parts = s.parts ++ literal s.cur ∷ []; cur = [] }

abbrev or_empty : List StrPart → List StrPart
or_empty [] = literal [] ∷ []
or_empty (p ∷ ps) = p ∷ ps

unfoldable pub finish_string : {D : Type 0} → Pos → Pieces → Lexer → Token D × Lexer
finish_string start s lx =
    (record { kind = str (or_empty (flush s).parts); span = span_of start lx.pos }, lx)

-- `u32::from_str_radix(hex, 16).ok().and_then(char::from_u32)`.
unfoldable pub hex_digit : ℕ → ℕ
hex_digit c = if leb c b'9' then c - b'0' else if leb c b'F' then c - b'A' + 10 else c - b'a' + 10

unfoldable pub hex_value : ℕ → Text → ℕ
unfolding hex_digit
hex_value n [] = n
hex_value n (c ∷ cs) = hex_value (n * 16 + hex_digit c) cs

unfoldable pub char_from_hex : Text → Option ℕ
unfolding hex_value
char_from_hex [] = none
char_from_hex (c ∷ cs) =
    let n = hex_value 0 (c ∷ cs) in
    if ltb n 0xd800 || (ltb 0xdfff n && ltb n 0x11_0000) then some n else none

-- The closing brace, or the first character that is no hexadecimal digit.
unfoldable pub hex_end : Lexer → Lexer
hex_end lx = elim (peek lx) [
  | none ↦ lx
  | some h ↦ if h == b'}' then skip lx else report (span_at lx.pos) (invalid_hex_digit h) lx
]

unfoldable pub lex_unicode_escape : Pos → Pieces → Lexer → Pieces × Lexer
lex_unicode_escape esc_start s lx =
    if is_char (peek lx) b'{'
    then (let (hex, lx₁) = take_while is_hex_digit (skip lx) in
        let lx₂ = hex_end lx₁ in
        elim (char_from_hex hex) [
          | some c ↦ (push c s, lx₂)
          | none ↦ (s, report (span_of esc_start lx₂.pos) (invalid_unicode hex) lx₂)
        ])
    else (s, report (span_of esc_start lx.pos) expected_brace lx)

-- The escapes that stand for one character, in a plain and in a triple-quoted string.
unfoldable pub triple_escape : ℕ → Option ℕ
triple_escape e =
    if e == b'n'
    then some b'\n'
    else if e == b't'
    then some b'\t'
    else if e == b'r'
    then some b'\r'
    else if e == 0x5c
    then some 0x5c
    else if e == 0x22
    then some 0x22
    else if e == b'{'
    then some b'{'
    else if e == b'}'
    then some b'}'
    else none

unfoldable pub simple_escape : ℕ → Option ℕ
unfolding triple_escape
simple_escape e = if e == b'0' then some 0 else if e == 0x27 then some 0x27 else triple_escape e
