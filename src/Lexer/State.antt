-- ===== src/Lexer/State.antt =====
-- src/lexer/mod.rs: the lexer's state and its cursor operations, and SourceError of src/error.rs.
-- The state holds the characters not yet consumed: `Lexer/Cursor.antt` relates it to the
-- lookahead buffer of the source. An error's text is a constructor of `Message` that keeps what
-- the text quotes.
use y.Prelude.{
  ℕ, leb, ◌==◌, Text, List, [], ◌∷◌, ◌++◌, head?, tail, Bool, false, ◌&&◌, ◌||◌, Option, none, some,
}
use y.Source.{Pos, Span, span_of, advance, zero_pos}
use y.Lexer.Token.{Token, TokenKind}

pub data Message : Type 0 where
  bare_ampersand bare_hash unterminated_comment exponent_digits : Message
  unterminated_string unterminated_escape expected_brace unterminated_triple : Message
  unterminated_interpolation unterminated_nested_string : Message
  unexpected_character unknown_escape invalid_hex_digit : ℕ → Message
  invalid_decimal invalid_numeric invalid_integer invalid_unicode : Text → Message

pub record SourceError : Type 0 where
  pub span : Span
  pub message : Message
  pub hint : Option Text

pub record Lexer : Type 0 where
  pub rest : Text
  pub pos : Pos
  pub errors : List SourceError

-- What the lexer calls in other crates and in Unicode's tables: `D` is BigDecimal, `parse_int`
-- is `BigInt::from_str_radix(_, 10)`.
pub record Library (D : Type 0) : Type 0 where
  pub parse_decimal : Text → Option D
  pub zero_decimal : D
  pub parse_int : Text → Option ℕ
  pub is_whitespace : ℕ → Bool
  pub is_alphabetic : ℕ → Bool
  pub is_alphanumeric : ℕ → Bool

unfoldable pub new : Text → Lexer
new src = record { rest = src; pos = zero_pos; errors = [] }

abbrev pub peek : Lexer → Option ℕ
peek lx = head? lx.rest

abbrev pub peek2 : Lexer → Option ℕ
peek2 lx = head? (tail lx.rest)

abbrev bump_from : Text → Lexer → Option ℕ × Lexer
bump_from [] lx = (none, lx)
bump_from (c ∷ cs) lx = (some c, record lx { rest = cs; pos = advance lx.pos c })

unfoldable pub bump : Lexer → Option ℕ × Lexer
bump lx = bump_from lx.rest lx

-- `self.bump();`, with the character dropped.
unfoldable pub skip : Lexer → Lexer
unfolding bump
skip lx = (bump lx).1

-- `self.error(span, msg)`.
unfoldable pub report : Span → Message → Lexer → Lexer
report at msg lx = record lx {
  errors = lx.errors ++ record { span = at; message = msg; hint = none } ∷ [];
}

unfoldable pub tok : {D : Type 0} → Pos → TokenKind D → Lexer → Token D × Lexer
tok start kind lx = (record { kind = kind; span = span_of start lx.pos }, lx)

-- `self.peek() == Some(c)`.
abbrev pub is_char : Option ℕ → ℕ → Bool
is_char none c = false
is_char (some d) c = d == c

-- `o.map(p).unwrap_or(false)`.
abbrev pub holds : (ℕ → Bool) → Option ℕ → Bool
holds p none = false
holds p (some c) = p c

abbrev pub is_digit : ℕ → Bool
is_digit c = leb b'0' c && leb c b'9'

abbrev pub is_hex_digit : ℕ → Bool
is_hex_digit c = is_digit c || (leb b'a' c && leb c b'f') || (leb b'A' c && leb c b'F')

module _ {D : Type 0} (lib : Library D) where
  unfoldable pub is_ident_start : ℕ → Bool
  is_ident_start c = lib.is_alphabetic c || c == b'_'

  unfoldable pub is_ident_continue : ℕ → Bool
  is_ident_continue c = lib.is_alphanumeric c || c == b'_'
