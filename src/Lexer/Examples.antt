-- ===== src/Lexer/Examples.antt =====
-- Runs of the lexer on small sources.
use y.Prelude.{
  ℕ, ◌+◌, ◌-◌, ◌*◌, Bool, codes, Text, List, [], ◌∷◌, map, Option, none, some, ◌≡◌, refl, leb, ◌&&◌,
  ◌||◌, ◌==◌, ◌++◌, ◌↔◌, All,
}
use y.Prelude.Loop.{loop}
use y.Source.{Pos, zero_pos, span_of, advance, len_utf8}
use y.Lexer.Keywords.{from_ident_iff}
use y.Lexer.Cursor.{Cursor, Refines, cursor-Refines}
use y.Lexer.State.{Lexer}
use y.Lexer.Skipped.{Reason, dispatch-Reason}
use y.Lexer.Punct.{go_on}
use y.Lexer.Total.{TilesAll, tokenize-TilesAll}
use y.Lexer.Located.{Located, tokenize-Located}
use y.Lexer.Token.{
  TokenKind, as_str, from_ident, ident, keyword, int, decimal, str, eof, let_kw, plus_assign,
  literal, expr, arrow, transact_kw,
}
use y.Lexer.State.{
  Library, new, bump, skip, report, tok, is_digit, is_ident_start, is_ident_continue,
}
use y.Lexer.Scan.{
  take_while, eat_line, eat_block_comment, take_digits, take_sign, exponent_tail, exponent_at,
  maybe_exponent,
}
use y.Lexer.Number.{strip_underscores, decimal_token, integer_token, fraction, integer, lex_number}
use y.Lexer.Escapes.{finish_string, char_from_hex, hex_end, lex_unicode_escape, simple_escape}
use y.Lexer.Strings.{
  copy_nested, skip_nested_string_into, brace_char, brace_round, end_brace, collect_interpolation,
  add_expr, interpolation, escaped, plain_escaped, string_escape, string_char, string_round,
  triple_escape_round, triple_char, triple_round, strip_newline, end_string, lex_triple_string,
  lex_string,
}
use y.Lexer.Punct.{punctuation, run_arm}
use y.Lexer.Tokenize.{
  LexOutput, word_kind, lex_word, lex_punct, dispatch, token_round, next_token, stream_round,
  tokenize,
}

abbrev pub is_letter : ℕ → Bool
is_letter c = leb b'a' c && leb c b'z' || leb b'A' c && leb c b'Z'

abbrev pub digits_value : ℕ → Text → ℕ
digits_value n [] = n
digits_value n (c ∷ cs) = digits_value (n * 10 + (c - 48)) cs

-- ASCII, with decimals kept as their text.
abbrev pub ascii : Library Text
ascii = record {
  parse_decimal = λ t. some t;
  zero_decimal = [];
  parse_int = λ t. some (digits_value 0 t);
  is_whitespace = λ c. c == b' ' || leb b'\t' c && leb c b'\r';
  is_alphabetic = is_letter;
  is_alphanumeric = λ c. is_letter c || is_digit c;
}

abbrev kinds : Option (LexOutput Text) → List (TokenKind Text)
kinds none = []
kinds (some o) = map (λ t. t.kind) o.tokens

-- `tokenize` on ASCII, computed.
lexed : Text → Option (LexOutput Text)
unfolding tokenize stream_round next_token token_round dispatch lex_punct lex_word word_kind loop
    bump skip report tok is_ident_start is_ident_continue take_while eat_line eat_block_comment
    take_digits take_sign exponent_tail exponent_at maybe_exponent strip_underscores decimal_token
    integer_token fraction integer lex_number finish_string char_from_hex hex_end lex_unicode_escape
    simple_escape copy_nested skip_nested_string_into brace_char brace_round end_brace
    collect_interpolation add_expr interpolation escaped plain_escaped string_escape string_char
    string_round triple_escape_round triple_char triple_round strip_newline end_string
    lex_triple_string lex_string punctuation run_arm from_ident new advance len_utf8
lexed src = tokenize ascii src

-- The kinds of the tokens.
run : Text → List (TokenKind Text)
unfolding lexed
run src = kinds (lexed src)

assignment :
    run (codes "let x1 += 1_0; // y")
    ≡ keyword let_kw ∷ ident (codes "x1") ∷ plus_assign ∷ int 10 ∷ TokenKind.semicolon ∷ eof ∷ []
unfolding run
assignment = refl

decimals :
    run (codes "1_0.5e-2 1.x /* /* */ */ ->")
    ≡ decimal (codes "10.5e-2") ∷ int 1 ∷ TokenKind.dot ∷ ident (codes "x") ∷ arrow ∷ eof ∷ []
unfolding run
decimals = refl

-- A string literal with an interpolation that holds a string with a brace: "a{f("}")}b".
abbrev quoted : Text
quoted = 0x22 ∷ codes "a{f" ++ 0x22 ∷ codes "}" ++ 0x22 ∷ codes "}b" ++ 0x22 ∷ []

interpolated :
    run quoted
    ≡ str (
        literal (codes "a")
        ∷ expr (b'f' ∷ 0x22 ∷ b'}' ∷ 0x22 ∷ []) (
            span_of
              (record { offset = 3; line = 1; col = 4 })
              (record { offset = 8; line = 1; col = 9 }))
        ∷ literal (codes "b")
        ∷ [])
      ∷ eof
      ∷ []
unfolding run
interpolated = refl

-- A source with a comment, a newline and a two-byte letter in a string.
abbrev source : Text
source = b'x' ∷ 0x20 ∷ b'/' ∷ b'*' ∷ b'*' ∷ b'/' ∷ b'\n' ∷ 0x22 ∷ 0xE9 ∷ 0x22 ∷ []

abbrev place : ℕ → ℕ → ℕ → Pos
place o l c = record { offset = o; line = l; col = c }

abbrev source_lexed : LexOutput Text
source_lexed = record {
  tokens =
      record { kind = ident (b'x' ∷ []); span = span_of zero_pos (place 1 1 2) }
      ∷ record {
        kind = str (literal (0xE9 ∷ []) ∷ []);
        span = span_of (place 7 2 1) (place 11 2 4);
      }
      ∷ record { kind = eof; span = span_of (place 11 2 4) (place 11 2 4) }
      ∷ [];
  errors = [];
}

source-lexed : tokenize ascii source ≡ some source_lexed
unfolding lexed
source-lexed = refl

tokenize-TilesAll_example :
    (o : LexOutput Text) × (tokenize ascii source ≡ some o) × TilesAll source o.tokens
tokenize-TilesAll_example = tokenize-TilesAll ascii source

tokenize-Located_example : All (Located source) source_lexed.tokens
tokenize-Located_example = tokenize-Located ascii source source_lexed source-lexed

from_ident_iff_example :
    (from_ident (codes "transact") ≡ some transact_kw) ↔ (codes "transact" ≡ as_str transact_kw)
from_ident_iff_example = from_ident_iff (codes "transact") transact_kw

-- A cursor in the middle of the source, with one character read ahead.
abbrev ahead : Cursor
ahead = record { chars = codes "b"; peek_buf = codes "a"; pos = zero_pos; errors = [] }

cursor-Refines_example : Refines ahead
cursor-Refines_example = cursor-Refines ahead

-- After the blank of `" x"`.
abbrev behind_blank : Lexer
behind_blank = record { rest = codes "x"; pos = place 1 1 2; errors = [] }

blank_passed : dispatch ascii zero_pos b' ' behind_blank ≡ some (go_on behind_blank)
unfolding dispatch
blank_passed = refl

dispatch-Reason_example : Reason ascii b' ' behind_blank behind_blank
dispatch-Reason_example = dispatch-Reason ascii b' ' zero_pos behind_blank behind_blank blank_passed
