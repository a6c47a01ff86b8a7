-- ===== src/Lexer/Skipped.antt =====
-- What `next_token` passes over without a token.
use y.Prelude.{
  ℕ, ◌<◌, ◌==◌, List, [], ◌∷◌, ◌&&◌, ◌||◌, length, length-append, true, Option, none, some, ◌≡◌,
  arith, if_cases, if_both,
}
use y.Prelude.Cases.{option_both}
use y.Source.{Pos, Span}
use y.Lexer.Token.{Token, TokenKind}
use y.Lexer.State.{Library, Lexer, Message, peek, report, is_char, is_digit, is_ident_start}
use y.Lexer.Strings.{lex_string}
use y.Lexer.Punct.{Alone, token, error, Pass, emit, go_on, punctuation, run_arm}
use y.Lexer.Tokenize.{lex_punct, emitted, dispatch}

-- Why a pass over the character `c` gives no token: it is white space, it begins a comment, or the
-- pass reports an error.
pub data Reason {D : Type 0} (lib : Library D) (c : ℕ) (lx y : Lexer) : Type 0 where
  space : lib.is_whitespace c ≡ true → Reason lib c lx y
  comment :
      (c == b'/') && (is_char (peek lx) b'/' || is_char (peek lx) b'*') ≡ true → Reason lib c lx y
  reported : length lx.errors < length y.errors → Reason lib c lx y

abbrev Explained : {D : Type 0} → Library D → ℕ → Lexer → Option (Pass D) → Type 0
Explained lib c lx none = Unit
Explained lib c lx (some (emit r)) = Unit
Explained lib c lx (some (go_on y)) = Reason lib c lx y

module _ {D : Type 0} (lib : Library D) (c : ℕ) where
  report-Explained : (at : Span) (m : Message) (lx : Lexer) → Reason lib c lx (report at m lx)
  unfolding report
  report-Explained at m lx =
      reported (
        omega
          (arith, length-append lx.errors (record { span = at; message = m; hint = none } ∷ [])))

  run_arm-Explained :
      (start : Pos) (pairs : List (ℕ × TokenKind D)) (alone : Alone D) (lx : Lexer)
      → Explained lib c lx (some (run_arm start pairs alone lx))
  unfolding run_arm
  run_arm-Explained start [] (token k) lx = tt
  run_arm-Explained start [] (error m) lx = report-Explained _ m lx
  run_arm-Explained start (p ∷ pairs) alone lx =
      if_both (λ r. Explained lib c lx (some r)) (is_char (peek lx) p.0) tt
        (run_arm-Explained start pairs alone lx)

  lex_punct-Explained :
      (start : Pos) (lx : Lexer) → Explained lib c lx (some (lex_punct lib start c lx))
  unfolding lex_punct
  lex_punct-Explained start lx =
      option_both (λ r. Explained lib c lx (some r)) (punctuation c) (report-Explained _ _ lx)
        (λ arm. run_arm-Explained start arm.pairs arm.alone lx)

  emitted-Explained :
      (lx : Lexer) (o : Option (Token D × Lexer)) → Explained lib c lx (emitted lib o)
  emitted-Explained lx none = tt
  emitted-Explained lx (some r) = tt

  dispatch-Explained : (start : Pos) (lx : Lexer) → Explained lib c lx (dispatch lib start c lx)
  unfolding dispatch
  dispatch-Explained start lx =
      let P = Explained lib c lx in
      if_cases P (lib.is_whitespace c) space (λ _.
        if_cases P (c == b'/' && is_char (peek lx) b'/') (λ e. comment (ground arith))
          (λ _.
            if_cases P (c == b'/' && is_char (peek lx) b'*') (λ e. comment (ground arith))
              (λ _. if_both P (is_ident_start lib c) tt (
                if_both P (is_digit c) tt (
                  if_both P (c == 0x22) (emitted-Explained lx (lex_string start lx))
                    (lex_punct-Explained start lx))))))

  -- A pass of `next_token` goes on without a token only behind white space, behind a comment, or
  -- with one more error reported than before.
  pub dispatch-Reason :
      (start : Pos) (lx y : Lexer) → dispatch lib start c lx ≡ some (go_on y) → Reason lib c lx y
  dispatch-Reason start lx y e = rw e at (dispatch-Explained start lx)
