-- ===== src/Lexer/NextToken.antt =====
-- `next_token` always answers with the fuel that it is given, and consumes what its token spans.
use y.Prelude.{
  ℕ, ◌<◌, ◌==◌, Text, List, [], ◌∷◌, length, ◌≡◌, refl, sym, arith, true, false, Option, none, some,
  if_both, ◌&&◌, ap, All, same_text,
}
use y.Prelude.Loop.{Round, After, Returns, loop_rule}
use y.Prelude.Cases.{option_both, option_split}
use y.Source.{Pos, span_of}
use y.Lexer.Token.{Token, TokenKind, from_ident}
use y.Lexer.State.{
  Library, Lexer, SourceError, Message, unexpected_character, peek, bump, skip, report, tok,
  is_char, is_digit, is_ident_start, is_ident_continue,
}
use y.Lexer.Strings.{enough}
use y.Lexer.Punct.{
  Arm, Alone, token, error, Pass, emit, go_on, brackets, operators, or_else, punctuation, run_arm,
}
use y.Lexer.Tokenize.{
  is_eof, word_kind, lex_word, lex_punct, emitted, dispatch, as_round, token_round, next_token,
}
use y.Lexer.Moves.{
  Moves, Advances, Advances-refl, Advances-trans, Advances-le, skip-Advances, bump-Advances,
  bump-shrinks, report-Advances, lexer,
}
use y.Lexer.ScanMoves.{
  take_while-Advances, eat_line-Advances, eat_block_comment-Advances, Emitted, lex_number-Emitted,
}
use y.Lexer.StringMoves.{lex_string-Returns}

-- What `dispatch` decides once the first character of a token is consumed.
abbrev Passed : {D : Type 0} → Pos → Lexer → Pass D → Type 0
Passed start lx (emit r) = Emitted start lx r
Passed start lx (go_on lx') = Advances lx lx'

module _ {D : Type 0} where
  -- No arm completes an `Eof`.
  abbrev AloneOk : Alone D → Type 0
  AloneOk (token k) = is_eof k ≡ false
  AloneOk (error m) = Unit

  abbrev ArmOk : Option (Arm D) → Type 0
  ArmOk none = Unit
  ArmOk (some arm) = All (λ p. is_eof p.1 ≡ false) arm.pairs × AloneOk arm.alone

  or_else-ArmOk : (o q : Option (Arm D)) → ArmOk o → ArmOk q → ArmOk (or_else o q)
  or_else-ArmOk none q h k = k
  or_else-ArmOk (some a) q h k = h

  run_arm-Passed :
      (start : Pos) (pairs : List (ℕ × TokenKind D)) (alone : Alone D) (lx : Lexer)
      → All (λ p. is_eof p.1 ≡ false) pairs
      → AloneOk alone
      → Passed start lx (run_arm start pairs alone lx)
  unfolding run_arm tok
  run_arm-Passed start [] (token k) lx h k_ok = record {
    advances = Advances-refl lx;
    spans = refl;
    not_eof = k_ok;
  }
  run_arm-Passed start [] (error m) lx h k_ok = report-Advances _ _ lx
  run_arm-Passed start ((c, k) ∷ pairs) alone lx h k_ok =
      if_both (Passed start lx) (is_char (peek lx) c)
        (record { advances = skip-Advances lx; spans = refl; not_eof = h.0 })
        (run_arm-Passed start pairs alone lx h.1 k_ok)

  arm-Passed :
      (start : Pos) (o : Option (Arm D)) (lx : Lexer) (m : Message)
      → ArmOk o
      → Passed start lx (elim o [
        | none ↦ go_on (report (span_of start lx.pos) m lx)
        | some arm ↦ run_arm start arm.pairs arm.alone lx
      ])
  arm-Passed start none lx m h = report-Advances _ _ lx
  arm-Passed start (some arm) lx m h = run_arm-Passed start arm.pairs arm.alone lx h.0 h.1

brackets-ArmOk : (D : Type 0) (c : ℕ) → ArmOk (brackets {D = D} c)
unfolding brackets
brackets-ArmOk D c = ground arith

operators-ArmOk : (D : Type 0) (c : ℕ) → ArmOk (operators {D = D} c)
unfolding operators
operators-ArmOk D c = ground arith

word_kind-ne-eof : (D : Type 0) (s : Text) → is_eof (word_kind {D = D} s) ≡ false
unfolding word_kind
word_kind-ne-eof D s =
    if_both (λ (k : TokenKind D). is_eof k ≡ false) (same_text s (b'_' ∷ [])) refl
      (option_both (λ (k : TokenKind D). is_eof k ≡ false) (from_ident s) refl (λ k. refl))

module _ {D : Type 0} (lib : Library D) where
  lex_word-Emitted : (start : Pos) (c : ℕ) (lx : Lexer) → Emitted start lx (lex_word lib start c lx)
  unfolding lex_word tok
  lex_word-Emitted start c lx = record {
    advances = take_while-Advances (is_ident_continue lib) lx;
    spans = refl;
    not_eof = word_kind-ne-eof D _;
  }

  lex_punct-Passed : (start : Pos) (c : ℕ) (lx : Lexer) → Passed start lx (lex_punct lib start c lx)
  unfolding lex_punct
  lex_punct-Passed start c lx = arm-Passed start (punctuation c) lx (unexpected_character c) (
      unfold punctuation in
      or_else-ArmOk (brackets c) (operators c) (brackets-ArmOk D c) (operators-ArmOk D c))

  emitted-Passed :
      (start : Pos) (lx : Lexer) (o : Option (Token D × Lexer))
      → Returns (Emitted start lx) o
      → Returns (Passed start lx) (emitted lib o)
  emitted-Passed start lx none h = h
  emitted-Passed start lx (some r) h = h

  dispatch-Passed :
      (start : Pos) (c : ℕ) (lx : Lexer) → Returns (Passed start lx) (dispatch lib start c lx)
  unfolding dispatch
  dispatch-Passed start c lx =
      let P = Returns (Passed {D = D} start lx) in
      if_both P (lib.is_whitespace c) (Advances-refl lx) (
        if_both P (c == b'/' && is_char (peek lx) b'/')
          (Advances-trans (skip-Advances lx) (eat_line-Advances (skip lx)))
          (if_both P (c == b'/' && is_char (peek lx) b'*')
            (Advances-trans (skip-Advances lx) (eat_block_comment-Advances start (skip lx)))
            (if_both P (is_ident_start lib c) (lex_word-Emitted start c lx) (
              if_both P (is_digit c) (lex_number-Emitted lib start c lx) (
                if_both P (c == 0x22) (emitted-Passed start lx _ (lex_string-Returns D start lx))
                  (lex_punct-Passed start c lx))))))

-- A token of `next_token` called at `lx`: white space and comments, then the token's own text.
pub record TokenAt {D : Type 0} (lx : Lexer) (r : Token D × Lexer) : Type 0 where
  pub behind : Text
  pub gap : Moves lx.rest lx.pos behind r.0.span.start
  pub body : Moves behind r.0.span.start r.1.rest r.0.span.end
  pub stands : r.1.pos ≡ r.0.span.end
  pub consumes : is_eof r.0.kind ≡ false → length r.1.rest < length behind
  pub at_end : is_eof r.0.kind ≡ true → behind ≡ []

TokenAt-intro :
    {D : Type 0} (lx x z : Lexer) (t : Token D)
    → Advances lx x
    → Advances x z
    → t.span ≡ span_of x.pos z.pos
    → (is_eof t.kind ≡ false → length z.rest < length x.rest)
    → (is_eof t.kind ≡ true → x.rest ≡ [])
    → TokenAt lx (t, z)
TokenAt-intro lx x z t a b e less ends =
    let from : t.span.start ≡ x.pos = ap (λ s. s.start) e in
    let to : t.span.end ≡ z.pos = ap (λ s. s.end) e in
    record {
      behind = x.rest;
      gap = rw from a.moves;
      body = rw (from, to) b.moves;
      stands = sym to;
      consumes = less;
      at_end = ends;
    }

module _ {D : Type 0} (lib : Library D) where
  abbrev RoundAfter : Lexer → ℕ → Round Lexer (Token D × Lexer) → Type 0
  RoundAfter lx = After (Advances lx) (TokenAt lx) (λ x. length x.rest)

  as_round-After :
      (lx x y : Lexer) (o : Option (Pass D))
      → Advances lx x
      → Advances x y
      → length y.rest < length x.rest
      → Returns (Passed x.pos y) o
      → Returns (RoundAfter lx (length x.rest)) (as_round lib o)
  as_round-After lx x y none a b h r = r
  as_round-After lx x y (some (emit (t, z))) a b h r =
      TokenAt-intro lx x z t a (Advances-trans b r.advances) r.spans
        (λ _. omega (arith, Advances-le r.advances)) (λ e. ground (arith, r.not_eof))
  as_round-After lx x y (some (go_on z)) a b h r =
      (Advances-trans a (Advances-trans b r), omega (arith, Advances-le r))

  bump-none : (r : Text) (p : Pos) (e : List SourceError) → (bump (lexer r p e)).0 ≡ none → r ≡ []
  unfolding bump
  bump-none [] p e h = refl
  bump-none (c ∷ r) p e h = ground arith

  bump-none_pos :
      (r : Text) (p : Pos) (e : List SourceError)
      → (bump (lexer r p e)).0 ≡ none
      → p ≡ (bump (lexer r p e)).1.pos
  unfolding bump
  bump-none_pos [] p e h = refl
  bump-none_pos (c ∷ r) p e h = ground arith

  token_round-After :
      (lx x : Lexer) → Advances lx x → Returns (RoundAfter lx (length x.rest)) (token_round lib x)
  unfolding token_round
  token_round-After lx x a =
      option_split (Returns (RoundAfter lx (length x.rest))) (bump x).0
        (λ e.
          TokenAt-intro lx x (bump x).1 _ a (bump-Advances x)
            (ap (λ p. span_of x.pos p) (bump-none_pos x.rest x.pos x.errors e)) (λ f. ground arith)
            (λ _. bump-none x.rest x.pos x.errors e))
        (λ c e.
          as_round-After lx x (bump x).1 (dispatch lib x.pos c (bump x).1) a (bump-Advances x)
            (bump-shrinks x c e) (dispatch-Passed lib x.pos c (bump x).1))

  pub next_token-Returns : (lx : Lexer) → Returns (TokenAt lx) (next_token lib lx)
  unfolding next_token
  next_token-Returns lx =
      loop_rule (Advances lx) (TokenAt lx) (λ x. length x.rest) (token_round lib)
        (token_round-After lx) (enough lx) lx (omega arith) (Advances-refl lx)
