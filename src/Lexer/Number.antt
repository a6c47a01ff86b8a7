-- ===== src/Lexer/Number.antt =====
-- src/lexer/mod.rs: `lex_number`.
use y.Prelude.{ℕ, ◌==◌, if◌then◌else◌, Text, [], ◌∷◌, ◌++◌, ◌&&◌, Option, none, some}
use y.Source.{Pos, span_of}
use y.Lexer.Token.{Token, decimal, int}
use y.Lexer.State.{
  Library, Lexer, Message, peek, peek2, skip, report, holds, is_char, is_digit, invalid_decimal,
  invalid_numeric, invalid_integer,
}
use y.Lexer.Scan.{take_digits, maybe_exponent}

-- `literal.replace('_', "")`.
unfoldable pub strip_underscores : Text → Text
strip_underscores [] = []
strip_underscores (c ∷ cs) = let rest = strip_underscores cs in if c == b'_' then rest else c ∷ rest

abbrev text_of : Option Text → Text
text_of none = []
text_of (some t) = t

module _ {D : Type 0} (lib : Library D) where
  -- A parsed literal, or the error with a zero in its place.
  unfoldable pub decimal_token : (Text → Message) → Pos → Text → Lexer → Token D × Lexer
  decimal_token complain start stripped lx =
      let at = span_of start lx.pos in
      elim (lib.parse_decimal stripped) [
        | some d ↦ (record { kind = decimal d; span = at }, lx)
        | none ↦ (
          record { kind = decimal lib.zero_decimal; span = at },
          report at (complain stripped) lx,
        )
      ]

  unfoldable pub integer_token : Pos → Text → Lexer → Token D × Lexer
  integer_token start stripped lx =
      let at = span_of start lx.pos in
      elim (lib.parse_int stripped) [
        | some n ↦ (record { kind = int n; span = at }, lx)
        | none ↦ (record { kind = int 0; span = at }, report at (invalid_integer stripped) lx)
      ]

  -- `digit '.' digit`, at the point.
  unfoldable pub fraction : Pos → Text → Lexer → Token D × Lexer
  fraction start int_part lx =
      let (frac, lx₁) = take_digits (skip lx) in
      let (exp, lx₂) = maybe_exponent lx₁ in
      decimal_token invalid_decimal start
        (strip_underscores ((int_part ++ b'.' ∷ frac) ++ text_of exp)) lx₂

  -- An integer, promoted to a decimal if an exponent follows.
  unfoldable pub integer : Pos → Text → Lexer → Token D × Lexer
  integer start int_part lx =
      let (exp, lx') = maybe_exponent lx in
      elim exp [
        | some e ↦ decimal_token invalid_numeric start (strip_underscores (int_part ++ e)) lx'
        | none ↦ integer_token start (strip_underscores int_part) lx'
      ]

  unfoldable pub lex_number : Pos → ℕ → Lexer → Token D × Lexer
  lex_number start first lx =
      let (digits, lx') = take_digits lx in
      if is_char (peek lx') b'.' && holds is_digit (peek2 lx')
      then fraction start (first ∷ digits) lx'
      else integer start (first ∷ digits) lx'
