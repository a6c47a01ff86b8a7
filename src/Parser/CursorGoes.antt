-- ===== src/Parser/CursorGoes.antt =====
-- src/parser/mod.rs: what the parsers of one token do to the tokens: bump, eat, eat_kw, expect,
-- expect_ident.
use y.Prelude.{
  Text, ℕ, suc, ◌≤◌, ◌<◌, ◌≡◌, refl, ◌∙◌, ap, if◌then◌else◌, Bool, true, false, List, [], ◌∷◌, none,
  length, arith, if_cases,
}
use y.Source.{Span}
use y.Lexer.Token.{Token, TokenKind, Keyword, eof}
use y.Parser.State.{ParseError, Parser, Parse, discriminant, same_kind, is_keyword, and_then, pure}
use y.Parser.Cursor.{
  ◌>>=◌, peek, span_here, bump, prev_span, bump_if, eat, eat_kw, at_kw, expect, expect_kw,
  expect_ident, ident_or_fail, check_eaten, up_to_here, opt,
}
use y.Parser.Goes.{
  IsFile, IsPlain, left, free, moving, Good, GoodStrict, Goes, Good-behind, Good-strict, pure-Goes,
  fail-Goes, step, peek-Goes, span_here-Goes, prev_span-Goes, error-Goes, Good-ahead,
}

module _ {D : Type 0} where
  abbrev at_token : List (Token D) → Token D → List (Token D) → List ParseError → Parser D
  at_token before here after errors = record {
    before = before;
    here = here;
    after = after;
    errors = errors;
  }

  strict_at :
      {A : Type 0} (before : List (Token D)) (here : Token D) (after : List (Token D))
      (errors : List ParseError) (m : Parse D A) (k : ℕ)
      → IsFile here after
      → length after < suc k
      → same_kind here.kind eof ≡ false
      → Goes free k m
      → GoodStrict
          (at_token before here after errors)
          ((bump >>= λ u. m) (at_token before here after errors))
  unfolding bump ◌>>=◌
  strict_at before here [] errors m k w l n g = absurd (ground (arith, w.1, n))
  strict_at before here (t ∷ ts) errors m k w l n g =
      let q = at_token (here ∷ before) t ts errors in
      Good-ahead (at_token before here (t ∷ ts) errors) q (m q) (omega arith)
        (g.at q w.1 (omega arith))

  -- Behind a token that is not the end of the file there is one token less.
  pub bump-strict :
      {A : Type 0} (k : ℕ) (m : Parse D A) (p : Parser D)
      → Goes free k m
      → IsPlain p
      → left p < suc k
      → same_kind p.here.kind eof ≡ false
      → GoodStrict p ((bump >>= λ u. m) p)
  bump-strict k m p g w l n = strict_at p.before p.here p.after p.errors m k w l n g

  free_at :
      {A : Type 0} (before : List (Token D)) (here : Token D) (after : List (Token D))
      (errors : List ParseError) (m : Parse D A) (k : ℕ)
      → IsFile here after
      → length after < k
      → Goes free k m
      → Good free
          (at_token before here after errors)
          ((bump >>= λ u. m) (at_token before here after errors))
  unfolding bump ◌>>=◌
  free_at before here [] errors m k w l g = g.at (at_token before here [] errors) w (omega arith)
  free_at before here (t ∷ ts) errors m k w l g =
      let q = at_token (here ∷ before) t ts errors in
      Good-behind free (at_token before here (t ∷ ts) errors) q (m q)
        (omega arith, λ e. absurd (omega (arith, e))) (g.at q w.1 (omega arith))

  -- A token that the test picks is consumed; otherwise the other parser runs.
  pub if-bump-Goes :
      {A : Type 0} (cost : A → ℕ) (k : ℕ) (kind : TokenKind D) (m n : Parse D A)
      → ((a : A) → cost a ≤ 1)
      → same_kind kind eof ≡ false
      → Goes free k m
      → Goes cost k n
      → Goes cost k (peek >>= λ here. if same_kind here kind then bump >>= (λ u. m) else n)
  unfolding peek ◌>>=◌
  if-bump-Goes {A = A} cost k kind m n c e g h = record {
    at = λ p w l.
        if_cases (λ (x : Parse D A). Good cost p (x p)) (same_kind p.here.kind kind)
          (λ same.
            Good-strict cost p _ c (bump-strict k m p g w (omega arith) (ground (arith, e, same))))
          (λ other. h.at p w l);
  }

  bump_if-Good :
      {A : Type 0} (cost : A → ℕ) (k : ℕ) (test : Bool) (f : Bool → Parse D A) (p : Parser D)
      → ((a : A) → cost a ≤ 1)
      → (test ≡ true → same_kind p.here.kind eof ≡ false)
      → Goes free k (f true)
      → Good cost p (f false p)
      → IsPlain p
      → left p < suc k
      → Good cost p (and_then (bump_if test p) f)
  unfolding ◌>>=◌ bump pure
  bump_if-Good cost k true f p c e g h w l =
      Good-strict cost p _ c (bump-strict k (f true) p g w l (e refl))
  bump_if-Good cost k false f p c e g h w l = h

  -- `eat`, by its outcome.
  pub eat-Goes :
      {A : Type 0} (cost : A → ℕ) (k : ℕ) (kind : TokenKind D) (f : Bool → Parse D A)
      → ((a : A) → cost a ≤ 1)
      → same_kind kind eof ≡ false
      → Goes free k (f true)
      → Goes cost k (f false)
      → Goes cost k (eat kind >>= f)
  unfolding eat peek ◌>>=◌
  eat-Goes cost k kind f c e g h = record {
    at = λ p w l.
        bump_if-Good cost k (same_kind p.here.kind kind) f p c (λ same. ground (arith, e, same)) g
          (h.at p w l) w (omega arith);
  }

  pub keyword-goes_on :
      (kw : Keyword) (kind : TokenKind D) → is_keyword kw kind ≡ true → same_kind kind eof ≡ false
  unfolding discriminant
  keyword-goes_on kw (TokenKind.keyword k) h = refl
  keyword-goes_on kw _ h = ground arith

  -- Behind the keyword one token less is left.
  pub eat_kw-Goes :
      {A : Type 0} (cost : A → ℕ) (k : ℕ) (kw : Keyword) (f : Bool → Parse D A)
      → ((a : A) → cost a ≤ 1)
      → Goes free k (f true)
      → Goes cost (suc k) (f false)
      → Goes cost (suc k) (eat_kw kw >>= f)
  unfolding eat_kw peek ◌>>=◌
  eat_kw-Goes cost k kw f c g h = record {
    at = λ p w l.
        bump_if-Good cost k (is_keyword kw p.here.kind) f p c (keyword-goes_on kw p.here.kind) g
          (h.at p w l) w l;
  }

  pub at_kw-Goes : (k : ℕ) (kw : Keyword) → Goes {D = D} free k (at_kw kw)
  unfolding at_kw
  at_kw-Goes k kw = step free k peek _ (peek-Goes k) (λ here. pure-Goes k _)

  check_eaten-Goes :
      (k : ℕ) (what : Text) (eaten : Bool) → Goes {D = D} free k (check_eaten what eaten)
  check_eaten-Goes k what true = pure-Goes k tt
  check_eaten-Goes k what false =
      step free k span_here _ (span_here-Goes k)
        (λ s. step free k peek _ (peek-Goes k) (λ here. error-Goes k s _))

  pub bump-free : (k : ℕ) → Goes {D = D} free k bump
  unfolding bump ◌>>=◌ pure
  bump-free k = record {
    at = λ p w l.
        free_at p.before p.here p.after p.errors (pure tt) k w (omega arith) (pure-Goes k tt);
  }

  bump_if-free : (k : ℕ) (test : Bool) → Goes {D = D} free k (bump_if test)
  bump_if-free k true = step free k bump _ (bump-free k) (λ u. pure-Goes k true)
  bump_if-free k false = pure-Goes k false

  pub eat-free : (k : ℕ) (kind : TokenKind D) → Goes free k (eat kind)
  unfolding eat
  eat-free k kind = step free k peek _ (peek-Goes k) (λ here. bump_if-free k _)

  pub eat_kw-free : (k : ℕ) (kw : Keyword) → Goes {D = D} free k (eat_kw kw)
  unfolding eat_kw
  eat_kw-free k kw = step free k peek _ (peek-Goes k) (λ here. bump_if-free k _)

  pub expect-Goes : (k : ℕ) (kind : TokenKind D) (what : Text) → Goes free k (expect kind what)
  unfolding expect
  expect-Goes k kind what =
      step free k (eat kind) _ (eat-free k kind) (λ b. check_eaten-Goes k what b)

  pub expect_kw-Goes :
      (k : ℕ) (kw : Keyword) (what : Text) → Goes {D = D} free k (expect_kw kw what)
  unfolding expect_kw
  expect_kw-Goes k kw what =
      step free k (eat_kw kw) _ (eat_kw-free k kw) (λ b. check_eaten-Goes k what b)

  ident_or_fail-Good :
      (k : ℕ) (what : Text) (kind : TokenKind D) (p : Parser D)
      → p.here.kind ≡ kind
      → IsPlain p
      → left p < k
      → Good moving p (ident_or_fail what kind p)
  unfolding ident_or_fail discriminant
  ident_or_fail-Good k what (TokenKind.ident s) p e w l =
      Good-strict moving p _ (λ a. omega arith)
        (bump-strict k (pure s) p (pure-Goes k s) w (omega arith) (ap (λ x. same_kind x eof) e))
  ident_or_fail-Good k what other p e w l =
      (step moving k span_here _ (span_here-Goes k) (λ s. fail-Goes moving k _)).at p w l

  pub expect_ident-Goes : (k : ℕ) (what : Text) → Goes {D = D} moving k (expect_ident what)
  unfolding expect_ident peek ◌>>=◌
  expect_ident-Goes k what = record {
    at = λ p w l. ident_or_fail-Good k what p.here.kind p refl w l;
  }

  pub up_to_here-Goes : (k : ℕ) (start : Span) → Goes {D = D} free k (up_to_here start)
  unfolding up_to_here
  up_to_here-Goes k start = step free k prev_span _ (prev_span-Goes k) (λ s. pure-Goes k _)

  pub opt-Goes :
      {A : Type 0} (k : ℕ) (b : Bool) (m : Parse D A) → Goes free k m → Goes free k (opt b m)
  opt-Goes k true m g = step free k m _ g (λ a. pure-Goes k _)
  opt-Goes k false m g = pure-Goes k none

  -- A token that is known is consumed.
  pub consumed :
      {A : Type 0} (cost : A → ℕ) (k : ℕ) (kind : TokenKind D) (m : Parse D A) (p : Parser D)
      → ((a : A) → cost a ≤ 1)
      → p.here.kind ≡ kind
      → same_kind kind eof ≡ false
      → Goes free k m
      → IsPlain p
      → left p < suc k
      → Good cost p ((bump >>= λ u. m) p)
  consumed cost k kind m p c e n g w l =
      Good-strict cost p _ c (bump-strict k m p g w l (ap (λ x. same_kind x eof) e ∙ n))
