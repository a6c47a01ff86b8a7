-- ===== src/Lexer/StringMoves.antt =====
-- The loops of `Lexer/Strings.antt` end with the fuel that they are given, and move as in
-- `Lexer/Moves.antt`.
use y.Prelude.{
  ℕ, ◌-◌, ◌<◌, ◌==◌, Text, [], ◌∷◌, ◌++◌, length, refl, arith, Bool, Option, none, some, if_both,
}
use y.Prelude.Loop.{Round, loop, After, Returns, Returns-bind, loop_rule}
use y.Prelude.Cases.{elim_both, option_both, option_cases}
use y.Source.{Pos, advance}
use y.Lexer.Token.{Token}
use y.Lexer.State.{Lexer, peek, bump, skip, is_char}
use y.Lexer.Scan.{Left}
use y.Lexer.Escapes.{finish_string, simple_escape, triple_escape}
use y.Lexer.Strings.{
  enough, copy_nested, skip_nested_string_into, Brace, brace, brace_char, brace_round, end_brace,
  collect_interpolation, Reading, reading, add_expr, interpolation, escaped, plain_escaped,
  string_escape, string_char, string_round, triple_escape_round, triple_char, triple_round,
  no_pieces, strip_newline, closes, end_string, lex_triple_string, lex_string,
}
use y.Lexer.Moves.{
  Moves, Moves-refl, Moves-one, Moves-trans, Advances, Advances-refl, Advances-trans, Advances-le,
  skip-Advances, bump-Advances, bump-shrinks, report-Advances, then_report, then_skip,
}
use y.Lexer.ScanMoves.{resume-Advances, lex_unicode_escape-Advances, Emitted, Emitted-trans}

copy_nested-Moves :
    (cs : Text) (pos : Pos) → Moves cs pos (copy_nested cs pos).2.text (copy_nested cs pos).2.pos
unfolding copy_nested
copy_nested-Moves [] pos = Moves-refl [] pos
copy_nested-Moves (c ∷ []) pos = Moves-one c [] pos
copy_nested-Moves (c ∷ d ∷ r) pos =
    let P = λ (x : Bool × Text × Left). Moves (c ∷ d ∷ r) pos x.2.text x.2.pos in
    let one = Moves-one c (d ∷ r) pos in
    elim_both P (c == 0x22) one (
      elim_both P (c == 0x5c)
        (Moves-trans (Moves-trans one (Moves-one d r (advance pos c))) (copy_nested-Moves r _))
        (Moves-trans one (copy_nested-Moves (d ∷ r) (advance pos c))))

skip_nested-Advances : (raw : Text) (lx : Lexer) → Advances lx (skip_nested_string_into raw lx).1
unfolding skip_nested_string_into
skip_nested-Advances raw lx =
    let a = resume-Advances lx _ (copy_nested-Moves lx.rest lx.pos) in
    if_both (Advances lx) (copy_nested lx.rest lx.pos).0 a (then_report _ _ a)

-- A round that goes on has moved on from `lx`, to fewer than `m` characters.
abbrev BraceAfter : Lexer → ℕ → Round Brace Brace → Type 0
BraceAfter lx = After (λ b. Advances lx b.lx) (λ b. Advances lx b.lx) (λ b. length b.lx.rest)

brace_char-After :
    (c : ℕ) (lx : Lexer) (b : Brace) (m : ℕ)
    → Advances lx b.lx
    → length b.lx.rest < m
    → BraceAfter lx m (brace_char c b)
unfolding brace_char
brace_char-After c lx b m a h =
    let P = BraceAfter lx m in
    let s = skip_nested-Advances (b.raw ++ c ∷ []) b.lx in
    if_both P (c == 0x22) (Advances-trans a s, omega (arith, Advances-le s))
      (if_both P (c == b'{') (a, h)
        (if_both P (c == b'}') (if_both P (b.depth - 1 == 0) a (a, h)) (a, h)))

brace_round-After :
    (lx : Lexer) (b : Brace)
    → Advances lx b.lx
    → Returns (BraceAfter lx (length b.lx.rest)) (brace_round b)
unfolding brace_round
brace_round-After lx b a =
    let a' = Advances-trans a (bump-Advances b.lx) in
    option_cases (Returns (BraceAfter lx (length b.lx.rest))) (bump b.lx).0 a'
      (λ c e. brace_char-After c lx _ _ a' (bump-shrinks b.lx c e))

brace-loop :
    (lx : Lexer)
    → Returns (λ (b : Brace). Advances lx b.lx) (loop brace_round (enough lx) (brace 1 [] lx))
brace-loop lx =
    loop_rule (λ b. Advances lx b.lx) (λ b. Advances lx b.lx) (λ b. length b.lx.rest) brace_round
      (brace_round-After lx) (enough lx) (brace 1 [] lx) (omega arith) (Advances-refl lx)

end_brace-Advances :
    (start : Pos) (lx : Lexer) (b : Brace) → Advances lx b.lx → Advances lx (end_brace start b).1
unfolding end_brace
end_brace-Advances start lx b a = if_both (Advances lx) (b.depth == 0) a (then_report _ _ a)

-- An interpolation is always collected.
collect_interpolation-Returns :
    (start : Pos) (lx : Lexer)
    → Returns (λ (r : Text × Lexer). Advances lx r.1) (collect_interpolation start lx)
unfolding collect_interpolation
collect_interpolation-Returns start lx =
    Returns-bind (λ (r : Text × Lexer). Advances lx r.1)
      (loop brace_round (enough lx) (brace 1 [] lx)) _ (brace-loop lx)
      (λ b h. end_brace-Advances start lx b h)

escaped-Advances :
    (o : Option ℕ) (e : ℕ) (at : Pos) (r : Reading) → Advances r.lx (escaped o e at r).lx
unfolding escaped
escaped-Advances none e at r = report-Advances _ _ r.lx
escaped-Advances (some c) e at r = Advances-refl r.lx

plain_escaped-Advances : (e : ℕ) (at : Pos) (r : Reading) → Advances r.lx (plain_escaped e at r).lx
unfolding plain_escaped
plain_escaped-Advances e at r =
    if_both (λ (x : Reading). Advances r.lx x.lx) (e == b'u')
      (lex_unicode_escape-Advances at r.pieces r.lx) (escaped-Advances (simple_escape e) e at r)

abbrev ReadAfter : Lexer → ℕ → Round Reading Reading → Type 0
ReadAfter lx = After (λ r. Advances lx r.lx) (λ r. Advances lx r.lx) (λ r. length r.lx.rest)

module _ (lx : Lexer) (m : ℕ) (r : Reading) (a : Advances lx r.lx) (h : length r.lx.rest < m) where
  interpolation-After : Returns (ReadAfter lx m) (interpolation r)
  unfolding interpolation add_expr
  interpolation-After =
      Returns-bind (ReadAfter lx m) (collect_interpolation r.lx.pos r.lx) _
        (collect_interpolation-Returns r.lx.pos r.lx)
        (λ found c. (Advances-trans a c, omega (arith, Advances-le c)))

  bumped-le : length (bump r.lx).1.rest < m
  bumped-le = omega (arith, Advances-le (bump-Advances r.lx))

  string_escape-After : ReadAfter lx m (string_escape r)
  unfolding string_escape
  string_escape-After =
      let a' = Advances-trans a (bump-Advances r.lx) in
      option_both (ReadAfter lx m) (bump r.lx).0 (then_report _ _ a') (λ e. (
        Advances-trans a' (plain_escaped-Advances e r.lx.pos _),
        omega (arith, Advances-le (plain_escaped-Advances e r.lx.pos _), bumped-le),
      ))

  triple_escape-After : ReadAfter lx m (triple_escape_round r)
  unfolding triple_escape_round
  triple_escape-After =
      let a' = Advances-trans a (bump-Advances r.lx) in
      option_both (ReadAfter lx m) (bump r.lx).0 a' (λ e. (
        Advances-trans a' (escaped-Advances (triple_escape e) e r.lx.pos _),
        omega (arith, Advances-le (escaped-Advances (triple_escape e) e r.lx.pos _), bumped-le),
      ))

  string_char-After : (c : ℕ) → Returns (ReadAfter lx m) (string_char c r)
  unfolding string_char
  string_char-After c =
      let P = Returns (ReadAfter lx m) in
      if_both P (c == 0x22) a (
        if_both P (c == 0x5c) string_escape-After
          (if_both P (c == b'{') interpolation-After (a, h)))

  triple_char-After : (c : ℕ) → Returns (ReadAfter lx m) (triple_char c r)
  unfolding triple_char
  triple_char-After c =
      let P = Returns (ReadAfter lx m) in
      if_both P (c == 0x5c) triple_escape-After (if_both P (c == b'{') interpolation-After (a, h))

module _ (start : Pos) (lx : Lexer) where
  string_round-After :
      (r : Reading)
      → Advances lx r.lx
      → Returns (ReadAfter lx (length r.lx.rest)) (string_round start r)
  unfolding string_round
  string_round-After r a =
      let a' = Advances-trans a (bump-Advances r.lx) in
      option_cases (Returns (ReadAfter lx (length r.lx.rest))) (bump r.lx).0 (then_report _ _ a')
        (λ c e. string_char-After lx _ _ a' (bump-shrinks r.lx c e) c)

  triple_round-After :
      (r : Reading)
      → Advances lx r.lx
      → Returns (ReadAfter lx (length r.lx.rest)) (triple_round start r)
  unfolding triple_round
  triple_round-After r a =
      let P = Returns (ReadAfter lx (length r.lx.rest)) in
      let a' = Advances-trans a (bump-Advances r.lx) in
      if_both P (closes r.lx) (then_skip (then_skip (then_skip a))) (
        option_cases P (bump r.lx).0 (then_report _ _ a')
          (λ c e. triple_char-After lx _ _ a' (bump-shrinks r.lx c e) c))

  end_string-Emitted :
      (D : Type 0) (o : Option Reading)
      → Returns (λ (r : Reading). Advances lx r.lx) o
      → Returns (Emitted {D = D} start lx) (end_string start o)
  unfolding end_string finish_string
  end_string-Emitted D none h = absurd h
  end_string-Emitted D (some r) h = record { advances = h; spans = refl; not_eof = refl }

strip_newline-Advances : (lx : Lexer) → Advances lx (strip_newline lx)
unfolding strip_newline
strip_newline-Advances lx =
    if_both (Advances lx) (is_char (peek lx) b'\n') (skip-Advances lx)
      (if_both (Advances lx) _ (then_skip (skip-Advances lx)) (Advances-refl lx))

module _ (D : Type 0) (start : Pos) where
  Returns-moved :
      {x y : Lexer} (o : Option (Token D × Lexer))
      → Advances x y
      → Returns (Emitted start y) o
      → Returns (Emitted start x) o
  Returns-moved none a h = h
  Returns-moved (some r) a h = Emitted-trans a h

  lex_triple_string-Returns :
      (lx : Lexer) → Returns (Emitted {D = D} start lx) (lex_triple_string start lx)
  unfolding lex_triple_string
  lex_triple_string-Returns lx =
      let lx' = strip_newline lx in
      Returns-moved _ (strip_newline-Advances lx) (
        end_string-Emitted start lx' D _ (
          loop_rule (λ r. Advances lx' r.lx) (λ r. Advances lx' r.lx) (λ r. length r.lx.rest)
            (triple_round start) (triple_round-After start lx') (enough lx') (reading no_pieces lx')
            (omega arith) (Advances-refl lx')))

  -- A string literal is always read to a token.
  pub lex_string-Returns : (lx : Lexer) → Returns (Emitted {D = D} start lx) (lex_string start lx)
  unfolding lex_string
  lex_string-Returns lx =
      if_both (Returns (Emitted {D = D} start lx)) _
        (Returns-moved _ (then_skip (skip-Advances lx))
          (lex_triple_string-Returns (skip (skip lx))))
        (end_string-Emitted start lx D _ (
          loop_rule (λ r. Advances lx r.lx) (λ r. Advances lx r.lx) (λ r. length r.lx.rest)
            (string_round start) (string_round-After start lx) (enough lx) (reading no_pieces lx)
            (omega arith) (Advances-refl lx)))
