-- ===== src/Parser/Strings.antt =====
-- src/parser/mod.rs: interpolated strings, whose expressions are lexed and parsed by themselves.
use y.Prelude.{◌==◌, if◌then◌else◌, Text, codes, ◌&&◌, List, [], ◌∷◌, ◌++◌, Option, none, some}
use y.Source.{Span}
use y.Lexer.Token.{Token, TokenKind, StrPart, describe, eof}
use y.Lexer.State.{SourceError}
use y.Lexer.Tokenize.{LexOutput, tokenize}
use y.Ast.Tree.{Expr, StrLit, no_parts, literal_and, part_and}
use y.Parser.State.{
  ParseError, lexical, Result, ok, err, Parser, ParserLibrary, Parse, new, pure, same_kind,
}
use y.Parser.Cursor.{◌>>=◌, peek, span_here, error_at}
use y.Parser.Calls.{Calls}

abbrev pub from_lexer : SourceError → ParseError
from_lexer e = record { span = e.span; message = lexical e.message; hint = e.hint }

-- An error without a place of its own gets that of the interpolation.
abbrev pub placed : Span → ParseError → ParseError
placed span e =
    if (e.span.start.offset == 0) && (e.span.end.offset == 0) then record e { span = span } else e

abbrev pub placed_result : {A : Type 0} → Span → Result A → Result A
placed_result span (ok a) = ok a
placed_result span (err e) = err (placed span e)

module _ {D : Type 0} (lib : ParserLibrary D) (c : Calls D) where
  abbrev pub ended : TokenKind D → Expr D → Parse D (Expr D)
  ended here e =
      if same_kind here eof
      then pure e
      else span_here >>= λ span.
          error_at span (codes "unexpected trailing tokens in interpolation: " ++ describe here)

  unfoldable pub whole_expr : Parse D (Expr D)
  whole_expr = do e ← c.parse_expr 0; here ← peek; ended here e

  abbrev pub result_of : {A : Type 0} → Option (Result A × Parser D) → Option (Result A)
  result_of none = none
  result_of (some (r, p)) = some r

  -- `tokenize` ends with `eof`, so there is a first token.
  abbrev pub parse_tokens : List (Token D) → Option (Result (Expr D))
  parse_tokens [] = none
  parse_tokens (t ∷ ts) = result_of (whole_expr (new t ts))

  abbrev pub parse_lexed : LexOutput D → Option (Result (Expr D))
  parse_lexed out = elim out.errors [
    | [] ↦ parse_tokens out.tokens
    | e ∷ es ↦ some (err (from_lexer e))
  ]

  unfoldable pub parse_interpolation : Text → Option (Result (Expr D))
  parse_interpolation raw = elim (tokenize lib.lexing raw) [
    | none ↦ none
    | some out ↦ parse_lexed out
  ]

  abbrev pub with_state : {A : Type 0} → Span → Option (Result A) → Parse D A
  with_state span none p = none
  with_state span (some r) p = some (placed_result span r, p)

  unfoldable pub build_string_parts : List StrPart → Parse D (StrLit D)
  build_string_parts [] = pure no_parts
  build_string_parts (StrPart.literal s ∷ parts) = do
    more ← build_string_parts parts
    pure (literal_and s more)
  build_string_parts (StrPart.expr raw span ∷ parts) = do
    e ← with_state span (parse_interpolation raw)
    more ← build_string_parts parts
    pure (part_and e more)

  unfoldable pub build_string : List StrPart → Span → Parse D (Expr D)
  build_string parts start = do lit ← build_string_parts parts; pure (Expr.str lit start)
