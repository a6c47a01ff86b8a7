-- ===== src/Parser/Goes.antt =====
-- src/parser/mod.rs: what every parser does to the tokens: it returns, never goes back, and keeps the
-- end of the file ahead. `Goes cost k m`: on a state with at most `k` tokens behind the current one `m`
-- returns, and a result `a` has consumed at least `cost a` tokens.
use y.Prelude.{
  Text, ℕ, suc, ◌+◌, ◌≤◌, ◌<◌, ◌≡◌, refl, ◌∙◌, true, List, [], ◌∷◌, Option, none, some, length,
  arith, get_elem?,
}
use y.Prelude.Cases.{option_both}
use y.Prelude.Loop.{Round, again, finish, Returns}
use y.Source.{Span}
use y.Lexer.Token.{Token, TokenKind, StrPart, str, eof}
use y.Parser.State.{ParseError, Result, ok, err, Parser, Parse, same_kind, and_then, pure, fail}
use y.Parser.Cursor.{◌>>=◌, peek, peek_after, span_here, prev_span, error, push_error}

-- A string without interpolations.
abbrev pub IsLiteral : List StrPart → Type 0
IsLiteral [] = Unit
IsLiteral (StrPart.literal s ∷ parts) = IsLiteral parts
IsLiteral (StrPart.expr raw span ∷ parts) = ⊥

abbrev pub IsPlainKind : {D : Type 0} → TokenKind D → Type 0
IsPlainKind (str parts) = IsLiteral parts
IsPlainKind _ = Unit

abbrev pub IsEof : {D : Type 0} → TokenKind D → Type 0
IsEof kind = same_kind kind eof ≡ true

-- The last token is the end of the file, and no string has interpolations.
abbrev pub IsFile : {D : Type 0} → Token D → List (Token D) → Type 0
IsFile t [] = IsPlainKind t.kind × IsEof t.kind
IsFile t (u ∷ us) = IsPlainKind t.kind × IsFile u us

abbrev pub IsPlain : {D : Type 0} → Parser D → Type 0
IsPlain p = IsFile p.here p.after

abbrev pub left : {D : Type 0} → Parser D → ℕ
left p = length p.after

abbrev pub spent : {A : Type 0} → (A → ℕ) → Result A → ℕ
spent cost (ok a) = cost a
spent cost (err e) = 0

abbrev pub free : {A : Type 0} → A → ℕ
free a = 0

abbrev pub moving : {A : Type 0} → A → ℕ
moving a = 1

-- A round that goes on has consumed a token.
abbrev pub advancing : {S A : Type 0} → Round S A → ℕ
advancing (again s) = 1
advancing (finish a) = 0

pub advancing_le : {S A : Type 0} (r : Round S A) → advancing r ≤ 1
advancing_le (again s) = omega arith
advancing_le (finish a) = omega arith

module _ {D : Type 0} where
  abbrev pub Good : {A : Type 0} → (A → ℕ) → Parser D → Option (Result A × Parser D) → Type 0
  Good cost p o =
      Returns
        (λ r.
          IsPlain r.1
          × (left r.1 + spent cost r.0 ≤ left p)
          × (left r.1 ≡ left p → r.1.here ≡ p.here))
        o

  -- A token is consumed, even if an error ends the parser.
  abbrev pub GoodStrict : {A : Type 0} → Parser D → Option (Result A × Parser D) → Type 0
  GoodStrict p o = Returns (λ r. IsPlain r.1 × (left r.1 < left p)) o

  pub record Goes {A : Type 0} (cost : A → ℕ) (k : ℕ) (m : Parse D A) : Type 0 where
    pub at : (p : Parser D) → IsPlain p → left p < k → Good cost p (m p)

  -- One state does not stand before another.
  abbrev pub Behind : Parser D → Parser D → Type 0
  Behind q p = (left q ≤ left p) × (left q ≡ left p → q.here ≡ p.here)

  pub Good-behind :
      {A : Type 0} (cost : A → ℕ) (p q : Parser D) (o : Option (Result A × Parser D))
      → Behind q p
      → Good cost q o
      → Good cost p o
  Good-behind cost p q none h g = g
  Good-behind cost p q (some (r, x)) h g = (
    g.0,
    omega (arith, g.1, h.0),
    λ e. g.2 (omega (arith, e, g.1, h.0)) ∙ h.1 (omega (arith, e, g.1, h.0)),
  )

  pub Good-strict :
      {A : Type 0} (cost : A → ℕ) (p : Parser D) (o : Option (Result A × Parser D))
      → ((a : A) → cost a ≤ 1)
      → GoodStrict p o
      → Good cost p o
  Good-strict cost p none h g = g
  Good-strict cost p (some (ok a, q)) h g =
      (g.0, omega (arith, h a, g.1), λ e. absurd (omega (arith, e, g.1)))
  Good-strict cost p (some (err e, q)) h g =
      (g.0, omega (arith, g.1), λ e. absurd (omega (arith, e, g.1)))

  pub Good-free :
      {A : Type 0} (cost : A → ℕ) (p : Parser D) (o : Option (Result A × Parser D))
      → Good cost p o
      → Good free p o
  Good-free cost p none g = g
  Good-free cost p (some (ok a, q)) g = (g.0, omega (arith, g.1), g.2)
  Good-free cost p (some (err e, q)) g = g

  pub Goes-free :
      {A : Type 0} (cost : A → ℕ) (k : ℕ) (m : Parse D A) → Goes cost k m → Goes free k m
  Goes-free cost k m g = record { at = λ p w l. Good-free cost p (m p) (g.at p w l) }

  pub pure-Goes : {A : Type 0} (k : ℕ) (a : A) → Goes free k (pure a)
  unfolding pure
  pure-Goes k a = record { at = λ p w l. (w, omega arith, λ e. refl) }

  pub finish-Goes : {S A : Type 0} (k : ℕ) (a : A) → Goes (advancing {S = S}) k (pure (finish a))
  unfolding pure
  finish-Goes k a = record { at = λ p w l. (w, omega arith, λ e. refl) }

  pub fail-Goes : {A : Type 0} (cost : A → ℕ) (k : ℕ) (e : ParseError) → Goes cost k (fail e)
  unfolding fail
  fail-Goes cost k e = record { at = λ p w l. (w, omega arith, λ e. refl) }

  and_then-Good :
      {A B : Type 0} (cost : B → ℕ) (k : ℕ) (p : Parser D) (o : Option (Result A × Parser D))
      (f : A → Parse D B)
      → left p < k
      → Good free p o
      → ((a : A) → Goes cost k (f a))
      → Good cost p (and_then o f)
  and_then-Good cost k p none f l g h = g
  and_then-Good cost k p (some (ok a, q)) f l g h =
      Good-behind cost p q (f a q) (omega (arith, g.1), g.2) ((h a).at q g.0 (omega (arith, g.1)))
  and_then-Good cost k p (some (err e, q)) f l g h = g

  pub step :
      {A B : Type 0} (cost : B → ℕ) (k : ℕ) (m : Parse D A) (f : A → Parse D B)
      → Goes free k m
      → ((a : A) → Goes cost k (f a))
      → Goes cost k (m >>= f)
  unfolding ◌>>=◌
  step cost k m f g h = record { at = λ p w l. and_then-Good cost k p (m p) f l (g.at p w l) h }

  and_then-moves :
      {A B : Type 0} (cost : B → ℕ) (k : ℕ) (p : Parser D) (o : Option (Result A × Parser D))
      (f : A → Parse D B)
      → left p < suc k
      → Good moving p o
      → ((a : A) → Goes free k (f a))
      → ((b : B) → cost b ≤ 1)
      → Good cost p (and_then o f)
  and_then-moves cost k p none f l g h c = g
  and_then-moves {B = B} cost k p (some (ok a, q)) f l g h c =
      Good-strict cost p (f a q) c (strict (f a q) ((h a).at q g.0 (omega (arith, g.1))))
    where
      strict : (o : Option (Result B × Parser D)) → Good free q o → GoodStrict p o
      strict none x = x
      strict (some r) x = (x.0, omega (arith, x.1, g.1))
  and_then-moves cost k p (some (err e, q)) f l g h c = (g.0, omega (arith, g.1), g.2)

  -- The first parser consumes a token, and one less is left.
  pub step_moving :
      {A B : Type 0} (cost : B → ℕ) (k : ℕ) (m : Parse D A) (f : A → Parse D B)
      → ((b : B) → cost b ≤ 1)
      → Goes moving (suc k) m
      → ((a : A) → Goes free k (f a))
      → Goes cost (suc k) (m >>= f)
  unfolding ◌>>=◌
  step_moving cost k m f c g h = record {
    at = λ p w l. and_then-moves cost k p (m p) f l (g.at p w l) h c;
  }

  -- The primitive parsers.
  pub peek-Goes : (k : ℕ) → Goes free k peek
  unfolding peek
  peek-Goes k = record { at = λ p w l. (w, omega arith, λ e. refl) }

  pub peek_after-Goes : (k n : ℕ) → Goes free k (peek_after n)
  unfolding peek_after
  peek_after-Goes k n = record {
    at = λ p w l.
        option_both (Good free p) (get_elem? p.after n) (w, omega arith, λ e. refl)
          (λ t. (w, omega arith, λ e. refl));
  }

  pub span_here-Goes : (k : ℕ) → Goes free k span_here
  unfolding span_here
  span_here-Goes k = record { at = λ p w l. (w, omega arith, λ e. refl) }

  pub prev_span-Goes : (k : ℕ) → Goes free k prev_span
  unfolding prev_span
  prev_span-Goes k = record { at = λ p w l. (w, omega arith, λ e. refl) }

  pub error-Goes : (k : ℕ) (s : Span) (message : Text) → Goes free k (error s message)
  unfolding error
  error-Goes k s message = record { at = λ p w l. (w, omega arith, λ e. refl) }

  pub push_error-Goes : (k : ℕ) (e : ParseError) → Goes free k (push_error e)
  unfolding push_error
  push_error-Goes k e = record { at = λ p w l. (w, omega arith, λ e. refl) }

  pub Good-ahead :
      {A : Type 0} (p q : Parser D) (o : Option (Result A × Parser D))
      → left q < left p
      → Good free q o
      → GoodStrict p o
  Good-ahead p q none h g = g
  Good-ahead p q (some (ok a, x)) h g = (g.0, omega (arith, g.1))
  Good-ahead p q (some (err e, x)) h g = (g.0, omega (arith, g.1))

  -- The same number of tokens is allowed before and behind the first parser.
  pub spend :
      {A B : Type 0} (cost : B → ℕ) (k : ℕ) (m : Parse D A) (f : A → Parse D B)
      → ((b : B) → cost b ≤ 1)
      → Goes moving k m
      → ((a : A) → Goes free k (f a))
      → Goes cost k (m >>= f)
  unfolding ◌>>=◌
  spend cost k m f c g h = record {
    at = λ p w l. and_then-moves cost k p (m p) f (omega arith) (g.at p w l) h c;
  }

  plain_file : (t : Token D) (ts : List (Token D)) → IsFile t ts → IsPlainKind t.kind
  plain_file t [] w = w.0
  plain_file t (u ∷ us) w = w.0

  pub plain_here : (p : Parser D) → IsPlain p → IsPlainKind p.here.kind
  plain_here p w = plain_file p.here p.after w
