-- ===== src/Lexer/ScanMoves.antt =====
-- The scanning loops of `Lexer/Scan.antt`, the numbers and the escapes move as in `Lexer/Moves.antt`.
use y.Prelude.{
  ℕ, ◌+◌, ◌-◌, ◌==◌, Text, [], ◌∷◌, ◌≡◌, refl, Bool, false, Option, head?, is_empty, if_both, ◌&&◌,
  ◌||◌,
}
use y.Prelude.Cases.{elim_both, option_both}
use y.Source.{Pos, advance, span_of}
use y.Lexer.Token.{Token}
use y.Lexer.Tokenize.{is_eof}
use y.Lexer.State.{
  Library, Lexer, Message, peek, skip, report, is_char, holds, is_digit, is_hex_digit,
}
use y.Lexer.Scan.{
  Left, resume, bump_while, take_while, eat_line, eat_nested, eat_block_comment, digit_run,
  take_digits, take_sign, exponent_tail, exponent_at, maybe_exponent,
}
use y.Lexer.Number.{decimal_token, integer_token, fraction, integer, lex_number}
use y.Lexer.Escapes.{Pieces, hex_end, lex_unicode_escape}
use y.Lexer.Moves.{
  Moves, Moves-refl, Moves-one, Moves-trans, Advances, Advances-refl, Advances-trans, skip-Advances,
  report-Advances, then_report,
}

abbrev Leaves : Text → Pos → Left → Type 0
Leaves a p l = Moves a p l.text l.pos

pub resume-Advances : (lx : Lexer) (l : Left) → Leaves lx.rest lx.pos l → Advances lx (resume l lx)
resume-Advances lx l m = record { moves = m }

bump_while-Moves : (p : ℕ → Bool) (cs : Text) (pos : Pos) → Leaves cs pos (bump_while p cs pos).1
unfolding bump_while
bump_while-Moves p [] pos = Moves-refl [] pos
bump_while-Moves p (c ∷ cs) pos =
    elim_both (λ (r : Text × Left). Leaves (c ∷ cs) pos r.1) (p c)
      (Moves-trans (Moves-one c cs pos) (bump_while-Moves p cs (advance pos c)))
      (Moves-refl (c ∷ cs) pos)

pub take_while-Advances : (p : ℕ → Bool) (lx : Lexer) → Advances lx (take_while p lx).1
unfolding take_while
take_while-Advances p lx = resume-Advances lx _ (bump_while-Moves p lx.rest lx.pos)

pub eat_line-Advances : (lx : Lexer) → Advances lx (eat_line lx)
unfolding eat_line
eat_line-Advances lx = take_while-Advances _ lx

eat_nested-Moves : (depth : ℕ) (cs : Text) (pos : Pos) → Leaves cs pos (eat_nested depth cs pos).1
unfolding eat_nested
eat_nested-Moves depth [] pos = Moves-refl [] pos
eat_nested-Moves depth (c ∷ []) pos = Moves-one c [] pos
eat_nested-Moves depth (c ∷ d ∷ r) pos =
    let two = Moves-trans (Moves-one c (d ∷ r) pos) (Moves-one d r (advance pos c)) in
    let P = λ (x : Bool × Left). Leaves (c ∷ d ∷ r) pos x.1 in
    elim_both P (c == b'/' && d == b'*') (Moves-trans two (eat_nested-Moves (depth + 1) r _)) (
      elim_both P (c == b'*' && d == b'/')
        (elim_both P (depth - 1 == 0) two (Moves-trans two (eat_nested-Moves (depth - 1) r _)))
        (Moves-trans (Moves-one c (d ∷ r) pos) (eat_nested-Moves depth (d ∷ r) (advance pos c))))

pub eat_block_comment-Advances :
    (start : Pos) (lx : Lexer) → Advances lx (eat_block_comment start lx)
unfolding eat_block_comment
eat_block_comment-Advances start lx =
    let a =
      resume-Advances lx (eat_nested 1 lx.rest lx.pos).1 (eat_nested-Moves 1 lx.rest lx.pos) in
    if_both (Advances lx) (eat_nested 1 lx.rest lx.pos).0 a (then_report _ _ a)

digit_run-Moves : (cs : Text) (pos : Pos) → Leaves cs pos (digit_run cs pos).1
unfolding digit_run
digit_run-Moves [] pos = Moves-refl [] pos
digit_run-Moves (c ∷ cs) pos =
    let P = λ (x : Text × Left). Leaves (c ∷ cs) pos x.1 in
    let on = Moves-trans (Moves-one c cs pos) (digit_run-Moves cs (advance pos c)) in
    elim_both P (is_digit c) on
      (elim_both P (c == b'_' && holds is_digit (head? cs)) on (Moves-refl (c ∷ cs) pos))

take_digits-Advances : (lx : Lexer) → Advances lx (take_digits lx).1
unfolding take_digits
take_digits-Advances lx = resume-Advances lx _ (digit_run-Moves lx.rest lx.pos)

take_sign-Advances : (lx : Lexer) → Advances lx (take_sign lx).1
unfolding take_sign
take_sign-Advances lx =
    let P = λ (x : Text × Lexer). Advances lx x.1 in
    if_both P (is_char (peek lx) b'+') (skip-Advances lx)
      (if_both P (is_char (peek lx) b'-') (skip-Advances lx) (Advances-refl lx))

exponent_tail-Advances :
    (saved : Pos) (buf : Text) (lx : Lexer) → Advances lx (exponent_tail saved buf lx).1
unfolding exponent_tail
exponent_tail-Advances saved buf lx =
    let a = take_while-Advances is_digit lx in
    if_both (λ (x : Text × Lexer). Advances lx x.1) (is_empty (take_while is_digit lx).0)
      (then_report _ _ a) a

exponent_at-Advances : (e : ℕ) (lx : Lexer) → Advances lx (exponent_at e lx).1
unfolding exponent_at
exponent_at-Advances e lx =
    if_both (λ (x : Option Text × Lexer). Advances lx x.1) (e == b'e' || e == b'E')
      (Advances-trans (Advances-trans (skip-Advances lx) (take_sign-Advances (skip lx)))
        (exponent_tail-Advances lx.pos _ (take_sign (skip lx)).1))
      (Advances-refl lx)

maybe_exponent-Advances : (lx : Lexer) → Advances lx (maybe_exponent lx).1
unfolding maybe_exponent
maybe_exponent-Advances lx =
    option_both (λ (x : Option Text × Lexer). Advances lx x.1) (peek lx) (Advances-refl lx)
      (λ e. exponent_at-Advances e lx)

-- A token that starts where `start` is and ends where the lexer then stands, and is no `Eof`.
pub record Emitted {D : Type 0} (start : Pos) (lx : Lexer) (r : Token D × Lexer) : Type 0 where
  pub advances : Advances lx r.1
  pub spans : r.0.span ≡ span_of start r.1.pos
  pub not_eof : is_eof r.0.kind ≡ false

pub Emitted-trans :
    {D : Type 0} {start : Pos} {x y : Lexer} {r : Token D × Lexer}
    → Advances x y
    → Emitted start y r
    → Emitted start x r
Emitted-trans a e = record {
  advances = Advances-trans a e.advances;
  spans = e.spans;
  not_eof = e.not_eof;
}

module _ {D : Type 0} (lib : Library D) where
  decimal_token-Emitted :
      (complain : Text → Message) (start : Pos) (t : Text) (lx : Lexer)
      → Emitted start lx (decimal_token lib complain start t lx)
  unfolding decimal_token report
  decimal_token-Emitted complain start t lx =
      option_both (Emitted start lx) (lib.parse_decimal t)
        (record { advances = report-Advances _ _ lx; spans = refl; not_eof = refl })
        (λ d. record { advances = Advances-refl lx; spans = refl; not_eof = refl })

  integer_token-Emitted :
      (start : Pos) (t : Text) (lx : Lexer) → Emitted start lx (integer_token lib start t lx)
  unfolding integer_token report
  integer_token-Emitted start t lx =
      option_both (Emitted start lx) (lib.parse_int t)
        (record { advances = report-Advances _ _ lx; spans = refl; not_eof = refl })
        (λ n. record { advances = Advances-refl lx; spans = refl; not_eof = refl })

  fraction-Emitted :
      (start : Pos) (t : Text) (lx : Lexer) → Emitted start lx (fraction lib start t lx)
  unfolding fraction
  fraction-Emitted start t lx = Emitted-trans (skip-Advances lx) (
      Emitted-trans (take_digits-Advances (skip lx)) (
        Emitted-trans (maybe_exponent-Advances (take_digits (skip lx)).1)
          (decimal_token-Emitted _ start _ _)))

  integer-Emitted :
      (start : Pos) (t : Text) (lx : Lexer) → Emitted start lx (integer lib start t lx)
  unfolding integer
  integer-Emitted start t lx = Emitted-trans (maybe_exponent-Advances lx) (
      option_both (Emitted start (maybe_exponent lx).1) (maybe_exponent lx).0
        (integer_token-Emitted start _ _) (λ e. decimal_token-Emitted _ start _ _))

  pub lex_number-Emitted :
      (start : Pos) (first : ℕ) (lx : Lexer) → Emitted start lx (lex_number lib start first lx)
  unfolding lex_number
  lex_number-Emitted start first lx =
      let lx' = (take_digits lx).1 in
      Emitted-trans (take_digits-Advances lx)
        (if_both (Emitted start lx') _ (fraction-Emitted start _ lx') (integer-Emitted start _ lx'))

hex_end-Advances : (lx : Lexer) → Advances lx (hex_end lx)
unfolding hex_end
hex_end-Advances lx =
    option_both (Advances lx) (peek lx) (Advances-refl lx)
      (λ h. if_both (Advances lx) (h == b'}') (skip-Advances lx) (report-Advances _ _ lx))

pub lex_unicode_escape-Advances :
    (at : Pos) (s : Pieces) (lx : Lexer) → Advances lx (lex_unicode_escape at s lx).1
unfolding lex_unicode_escape
lex_unicode_escape-Advances at s lx =
    let P = λ (x : Pieces × Lexer). Advances lx x.1 in
    let a =
      Advances-trans (skip-Advances lx)
        (Advances-trans (take_while-Advances is_hex_digit (skip lx)) (hex_end-Advances _)) in
    if_both P (is_char (peek lx) b'{') (option_both P _ (then_report _ _ a) (λ c. a))
      (report-Advances _ _ lx)
