-- ===== src/Lexer/Strings.antt =====
-- src/lexer/mod.rs: interpolations and the two kinds of string literals. Each loop gets one unit of
-- fuel more than there are characters left: every round that goes on consumes one.
use y.Prelude.{
  ℕ, suc, ◌+◌, ◌-◌, ◌==◌, if◌then◌else◌, Text, [], ◌∷◌, ◌++◌, head?, tail, length, ◌&&◌, Bool, true,
  false, Option, none, some,
}
use y.Prelude.Loop.{Round, again, finish, loop}
use y.Source.{Pos, span_of, span_at, advance}
use y.Lexer.Token.{Token, expr}
use y.Lexer.State.{
  Lexer, peek, peek2, bump, skip, report, is_char, unterminated_string, unterminated_escape,
  unknown_escape, unterminated_triple, unterminated_interpolation, unterminated_nested_string,
}
use y.Lexer.Scan.{Left, left, resume}
use y.Lexer.Escapes.{
  Pieces, push, flush, finish_string, lex_unicode_escape, simple_escape, triple_escape,
}

-- One more than the characters that are left.
abbrev pub enough : Lexer → ℕ
enough lx = suc (length lx.rest)

-- `skip_nested_string_into`: whether the closing quote was found, and the text copied.
unfoldable pub copy_nested : Text → Pos → Bool × Text × Left
copy_nested [] pos = (false, [], left [] pos)
copy_nested (c ∷ []) pos = (c == 0x22, c ∷ [], left [] (advance pos c))
copy_nested (c ∷ d ∷ r) pos = elim (c == 0x22) [
  | true ↦ (true, c ∷ [], left (d ∷ r) (advance pos c))
  | false ↦ elim (c == 0x5c) [
    | true ↦
        let (closed, raw, l) = copy_nested r (advance (advance pos c) d) in (closed, c ∷ d ∷ raw, l)
    | false ↦ let (closed, raw, l) = copy_nested (d ∷ r) (advance pos c) in (closed, c ∷ raw, l)
  ]
]

unfoldable pub skip_nested_string_into : Text → Lexer → Text × Lexer
skip_nested_string_into raw lx =
    let (closed, copied, l) = copy_nested lx.rest lx.pos in
    let lx' = resume l lx in
    (raw ++ copied, if closed then lx' else report (span_at lx'.pos) unterminated_nested_string lx')

-- The state of the loop of `collect_interpolation`.
pub record Brace : Type 0 where
  pub depth : ℕ
  pub raw : Text
  pub lx : Lexer

abbrev pub brace : ℕ → Text → Lexer → Brace
brace depth raw lx = record { depth = depth; raw = raw; lx = lx }

unfoldable pub brace_char : ℕ → Brace → Round Brace Brace
brace_char c b =
    if c == 0x22
    then (let (raw, lx) = skip_nested_string_into (b.raw ++ c ∷ []) b.lx in
        again (brace b.depth raw lx))
    else if c == b'{'
    then again (brace (b.depth + 1) (b.raw ++ c ∷ []) b.lx)
    else if c == b'}'
    then (if b.depth - 1 == 0
        then finish (brace 0 b.raw b.lx)
        else again (brace (b.depth - 1) (b.raw ++ c ∷ []) b.lx))
    else again (brace b.depth (b.raw ++ c ∷ []) b.lx)

unfoldable pub brace_round : Brace → Option (Round Brace Brace)
brace_round b =
    let (ch, lx) = bump b.lx in
    elim ch [
      | none ↦ some (finish (brace b.depth b.raw lx))
      | some c ↦ some (brace_char c (brace b.depth b.raw lx))
    ]

unfoldable pub end_brace : Pos → Brace → Text × Lexer
end_brace start b = (
  b.raw,
  if b.depth == 0 then b.lx else report (span_of start b.lx.pos) unterminated_interpolation b.lx,
)

unfoldable pub collect_interpolation : Pos → Lexer → Option (Text × Lexer)
collect_interpolation start lx = elim (loop brace_round (enough lx) (brace 1 [] lx)) [
  | none ↦ none
  | some b ↦ some (end_brace start b)
]

-- The state of the loops of `lex_string` and `lex_triple_string`.
pub record Reading : Type 0 where
  pub pieces : Pieces
  pub lx : Lexer

abbrev pub reading : Pieces → Lexer → Reading
reading s lx = record { pieces = s; lx = lx }

unfoldable pub add_expr : Pos → Pieces → Text × Lexer → Round Reading Reading
add_expr at s (raw, lx) =
    again (reading (record s { parts = s.parts ++ expr raw (span_of at lx.pos) ∷ [] }) lx)

-- An interpolation, just after its `{`.
unfoldable pub interpolation : Reading → Option (Round Reading Reading)
interpolation r = elim (collect_interpolation r.lx.pos r.lx) [
  | none ↦ none
  | some found ↦ some (add_expr r.lx.pos (flush r.pieces) found)
]

unfoldable pub escaped : Option ℕ → ℕ → Pos → Reading → Reading
escaped (some c) e at r = reading (push c r.pieces) r.lx
escaped none e at r = reading r.pieces (report (span_of at r.lx.pos) (unknown_escape e) r.lx)

unfoldable pub plain_escaped : ℕ → Pos → Reading → Reading
plain_escaped e at r =
    if e == b'u'
    then (let (s, lx) = lex_unicode_escape at r.pieces r.lx in reading s lx)
    else escaped (simple_escape e) e at r

-- After a backslash.
unfoldable pub string_escape : Reading → Round Reading Reading
string_escape r =
    let (e, lx) = bump r.lx in
    elim e [
      | none ↦ finish (reading r.pieces (report (span_of r.lx.pos lx.pos) unterminated_escape lx))
      | some e ↦ again (plain_escaped e r.lx.pos (reading r.pieces lx))
    ]

unfoldable pub string_char : ℕ → Reading → Option (Round Reading Reading)
string_char c r =
    if c == 0x22
    then some (finish r)
    else if c == 0x5c
    then some (string_escape r)
    else if c == b'{'
    then interpolation r
    else some (again (reading (push c r.pieces) r.lx))

unfoldable pub string_round : Pos → Reading → Option (Round Reading Reading)
string_round start r =
    let (ch, lx) = bump r.lx in
    elim ch [
      | none ↦
          some (finish (reading r.pieces (report (span_of start lx.pos) unterminated_string lx)))
      | some c ↦ string_char c (reading r.pieces lx)
    ]

-- After a backslash in a triple-quoted string; at the end of the text the loop is left silently.
unfoldable pub triple_escape_round : Reading → Round Reading Reading
triple_escape_round r =
    let (e, lx) = bump r.lx in
    elim e [
      | none ↦ finish (reading r.pieces lx)
      | some e ↦ again (escaped (triple_escape e) e r.lx.pos (reading r.pieces lx))
    ]

unfoldable pub triple_char : ℕ → Reading → Option (Round Reading Reading)
triple_char c r =
    if c == 0x5c
    then some (triple_escape_round r)
    else if c == b'{'
    then interpolation r
    else some (again (reading (push c r.pieces) r.lx))

-- `self.fill(3); self.peek_buf.get(2)`.
abbrev pub peek3 : Lexer → Option ℕ
peek3 lx = head? (tail (tail lx.rest))

abbrev pub closes : Lexer → Bool
closes lx = is_char (peek lx) 0x22 && (is_char (peek2 lx) 0x22 && is_char (peek3 lx) 0x22)

unfoldable pub triple_round : Pos → Reading → Option (Round Reading Reading)
triple_round start r =
    if closes r.lx
    then some (finish (reading r.pieces (skip (skip (skip r.lx)))))
    else (let (ch, lx) = bump r.lx in
        elim ch [
          | none ↦
              some
                (finish (reading r.pieces (report (span_of start lx.pos) unterminated_triple lx)))
          | some c ↦ triple_char c (reading r.pieces lx)
        ])

abbrev pub no_pieces : Pieces
no_pieces = record { parts = []; cur = [] }

-- A single leading newline is dropped.
unfoldable pub strip_newline : Lexer → Lexer
strip_newline lx =
    if is_char (peek lx) b'\n'
    then skip lx
    else if is_char (peek lx) b'\r' && is_char (peek2 lx) b'\n'
    then skip (skip lx)
    else lx

module _ {D : Type 0} where
  unfoldable pub end_string : Pos → Option Reading → Option (Token D × Lexer)
  end_string start none = none
  end_string start (some r) = some (finish_string start r.pieces r.lx)

  unfoldable pub lex_triple_string : Pos → Lexer → Option (Token D × Lexer)
  lex_triple_string start lx =
      let lx' = strip_newline lx in
      end_string start (loop (triple_round start) (enough lx') (reading no_pieces lx'))

  unfoldable pub lex_string : Pos → Lexer → Option (Token D × Lexer)
  lex_string start lx =
      if is_char (peek lx) 0x22 && is_char (peek2 lx) 0x22
      then lex_triple_string start (skip (skip lx))
      else end_string start (loop (string_round start) (enough lx) (reading no_pieces lx))
