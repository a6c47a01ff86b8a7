-- ===== src/Parser/Examples.antt =====
-- Runs of the parser.
use y.Prelude.{ℕ, ◌≡◌, refl, codes, false, true, [], ◌∷◌, none}
use y.Source.{span_at, zero_pos}
use y.Lexer.Token.{Token, TokenKind, ident, int, keyword, let_kw, fn_kw, plus, semicolon, eof}
use y.Parser.State.{ParserLibrary, Parser, new, discriminant}
use y.Parser.Cursor.{◌>>◌, bump}
use y.Parser.Statements.{lazy_import, import_path}
use y.Parser.Completes.{Completed, parse_file-Completed}
use y.Parser.Imports.{lazy_import-keyword}

-- Of the libraries nothing is called on these tokens.
abbrev lib : ParserLibrary ℕ
lib = record {
  lexing = record {
    parse_decimal = λ s. none;
    zero_decimal = 0;
    parse_int = λ s. none;
    is_whitespace = λ ch. false;
    is_alphabetic = λ ch. false;
    is_alphanumeric = λ ch. false;
  };
  neg_decimal = λ d. d;
  is_uppercase = λ ch. false;
}

abbrev token : TokenKind ℕ → Token ℕ
token kind = record { kind = kind; span = span_at zero_pos }

-- `let x 1 ; x +`
abbrev broken : Parser ℕ
broken = new (token (keyword let_kw)) (
    token (ident (codes "x"))
    ∷ token (int 1)
    ∷ token semicolon
    ∷ token (ident (codes "x"))
    ∷ token plus
    ∷ token eof
    ∷ [])

parse_file-Completed_example : Completed lib broken
unfolding discriminant
parse_file-Completed_example =
    parse_file-Completed lib broken (tt, (tt, (tt, (tt, (tt, (tt, (tt, refl)))))))

-- `fn m`, behind `lazy`
abbrev after_lazy : Parser ℕ
after_lazy = new (token (keyword fn_kw)) (token (ident (codes "m")) ∷ token eof ∷ [])

lazy_import-keyword_example :
    lazy_import (span_at zero_pos) after_lazy
    ≡ (bump >> import_path true (span_at zero_pos)) after_lazy
lazy_import-keyword_example = lazy_import-keyword (span_at zero_pos) fn_kw after_lazy refl
