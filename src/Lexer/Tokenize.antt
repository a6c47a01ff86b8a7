-- ===== src/Lexer/Tokenize.antt =====
-- src/lexer/mod.rs: `next_token` and `tokenize`. Fuel as in `Lexer/Strings.antt`.
use y.Prelude.{
  ℕ, suc, ◌==◌, if◌then◌else◌, Text, same_text, length, List, [], ◌∷◌, ◌++◌, ◌&&◌, Bool, true,
  false, Option, none, some,
}
use y.Prelude.Loop.{Round, again, finish, loop}
use y.Source.{Pos, span_of, span_at}
use y.Lexer.Token.{Token, TokenKind, from_ident, eof, ident, keyword, underscore}
use y.Lexer.State.{
  Library, Lexer, SourceError, new, peek, bump, skip, report, tok, is_char, is_digit,
  is_ident_start, is_ident_continue, unexpected_character,
}
use y.Lexer.Scan.{take_while, eat_line, eat_block_comment}
use y.Lexer.Number.{lex_number}
use y.Lexer.Strings.{lex_string, enough}
use y.Lexer.Punct.{Pass, emit, go_on, punctuation, run_arm}

pub record LexOutput (D : Type 0) : Type 0 where
  pub tokens : List (Token D)
  pub errors : List SourceError

-- `matches!(tok.kind, TokenKind::Eof)`.
abbrev pub is_eof : {D : Type 0} → TokenKind D → Bool
is_eof eof = true
is_eof _ = false

-- The state of the loop of `tokenize`.
pub record Stream (D : Type 0) : Type 0 where
  pub tokens : List (Token D)
  pub lx : Lexer

unfoldable pub word_kind : {D : Type 0} → Text → TokenKind D
word_kind s =
    if same_text s (b'_' ∷ [])
    then underscore
    else elim (from_ident s) [ some kw ↦ keyword kw | none ↦ ident s ]

module _ {D : Type 0} (lib : Library D) where
  unfoldable pub lex_word : Pos → ℕ → Lexer → Token D × Lexer
  lex_word start first lx =
      let (more, lx') = take_while (is_ident_continue lib) lx in
      tok start (word_kind (first ∷ more)) lx'

  abbrev pub emitted : Option (Token D × Lexer) → Option (Pass D)
  emitted none = none
  emitted (some r) = some (emit r)

  -- The last arms: punctuation, and any other character.
  unfoldable pub lex_punct : Pos → ℕ → Lexer → Pass D
  lex_punct start c lx = elim (punctuation c) [
    | some arm ↦ run_arm start arm.pairs arm.alone lx
    | none ↦ go_on (report (span_of start lx.pos) (unexpected_character c) lx)
  ]

  -- The `match` of `next_token`, with the character `c` already consumed.
  unfoldable pub dispatch : Pos → ℕ → Lexer → Option (Pass D)
  dispatch start c lx =
      if lib.is_whitespace c
      then some (go_on lx)
      else if c == b'/' && is_char (peek lx) b'/'
      then some (go_on (eat_line (skip lx)))
      else if c == b'/' && is_char (peek lx) b'*'
      then some (go_on (eat_block_comment start (skip lx)))
      else if is_ident_start lib c
      then some (emit (lex_word start c lx))
      else if is_digit c
      then some (emit (lex_number lib start c lx))
      else if c == 0x22
      then emitted (lex_string start lx)
      else some (lex_punct start c lx)

  abbrev pub as_round : Option (Pass D) → Option (Round Lexer (Token D × Lexer))
  as_round none = none
  as_round (some (emit r)) = some (finish r)
  as_round (some (go_on lx)) = some (again lx)

  unfoldable pub token_round : Lexer → Option (Round Lexer (Token D × Lexer))
  token_round lx =
      let (c, lx') = bump lx in
      elim c [
        | none ↦ some (finish (record { kind = eof; span = span_at lx.pos }, lx'))
        | some c ↦ as_round (dispatch lx.pos c lx')
      ]

  unfoldable pub next_token : Lexer → Option (Token D × Lexer)
  next_token lx = loop token_round (enough lx) lx

  abbrev pub push_token : Stream D → Option (Token D × Lexer) → Option (Round (Stream D) (Stream D))
  push_token s none = none
  push_token s (some (t, lx)) =
      let s' : Stream D = record { tokens = s.tokens ++ t ∷ []; lx = lx } in
      some (if is_eof t.kind then finish s' else again s')

  unfoldable pub stream_round : Stream D → Option (Round (Stream D) (Stream D))
  stream_round s = push_token s (next_token s.lx)

  abbrev pub output : Option (Stream D) → Option (LexOutput D)
  output none = none
  output (some s) = some (record { tokens = s.tokens; errors = s.lx.errors })

  unfoldable pub tokenize : Text → Option (LexOutput D)
  tokenize src =
      output (loop stream_round (suc (length src)) (record { tokens = []; lx = new src }))
