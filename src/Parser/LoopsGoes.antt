-- ===== src/Parser/LoopsGoes.antt =====
-- src/parser/mod.rs: what the parser's loops do to the tokens: a round that goes on has consumed one.
use y.Prelude.{ℕ, zero, suc, ◌<◌, refl, [], Option, none, some, arith, if_both}
use y.Prelude.Loop.{Round, again, finish}
use y.Lexer.Token.{TokenKind, comma}
use y.Parser.State.{Result, ok, err, Parser, Parse, discriminant, same_kind, and_then, pure}
use y.Parser.Cursor.{◌>>=◌, peek, one_or_more, none_or_more, items_until, rounds, repeat, next}
use y.Parser.Goes.{
  IsPlain, left, free, advancing, advancing_le, Good, GoodStrict, Goes, Good-behind, pure-Goes,
  finish-Goes, step, peek-Goes, Good-ahead,
}
use y.Parser.CursorGoes.{eat-Goes}

module _ {D : Type 0} where
  next-Good :
      {S A : Type 0} (p : Parser D) (go : S → Parse D A)
      (o : Option (Result (Round S A) × Parser D))
      → ((s : S) (q : Parser D) → IsPlain q → left q < left p → Good free q (go s q))
      → Good advancing p o
      → Good free p (and_then o (next go))
  unfolding pure
  next-Good p go none h g = g
  next-Good p go (some (ok (again s), q)) h g =
      Good-behind free p q (go s q) (omega (arith, g.1), g.2) (h s q g.0 (omega (arith, g.1)))
  next-Good p go (some (ok (finish a), q)) h g = g
  next-Good p go (some (err e, q)) h g = g

  -- Loops whose rounds consume a token when they go on.
  rounds-Good :
      {S A : Type 0} (k : ℕ) (body : S → Parse D (Round S A))
      → ((s : S) → Goes advancing k (body s))
      → (fuel : ℕ) (s : S) (p : Parser D) → IsPlain p
      → left p < k
      → left p < fuel
      → Good free p (rounds body fuel s p)
  unfolding rounds ◌>>=◌
  rounds-Good k body g zero s p w l f = absurd (omega arith)
  rounds-Good k body g (suc fuel) s p w l f =
      next-Good p (rounds body fuel) (body s p)
        (λ s' q v h. rounds-Good k body g fuel s' q v (omega arith) (omega arith)) ((g s).at p w l)

  pub repeat-Goes :
      {S A : Type 0} (k : ℕ) (body : S → Parse D (Round S A)) (s : S)
      → ((s : S) → Goes advancing k (body s))
      → Goes free k (repeat body s)
  unfolding repeat
  repeat-Goes k body s g = record {
    at = λ p w l. rounds-Good k body g (suc (left p)) s p w l (omega arith);
  }

  pub Goes-less :
      {A : Type 0} (cost : A → ℕ) (k : ℕ) (m : Parse D A) → Goes cost (suc k) m → Goes cost k m
  Goes-less cost k m g = record { at = λ p w l. g.at p w (omega arith) }

  one_or_more-Goes :
      {A : Type 0} (k : ℕ) (item : Parse D A) → Goes free k item → Goes free k (one_or_more item)
  unfolding one_or_more discriminant
  one_or_more-Goes k item g = repeat-Goes k _ [] (λ items.
      step advancing k item _ g
        (λ i. eat-Goes advancing k comma _ advancing_le refl (pure-Goes k _) (finish-Goes k _)))

  none_or_more-Goes :
      {A : Type 0} (k : ℕ) (closing here : TokenKind D) (item : Parse D A)
      → Goes free k item
      → Goes free k (none_or_more closing item here)
  none_or_more-Goes k closing here item g =
      if_both (Goes free k) (same_kind here closing) (pure-Goes k []) (one_or_more-Goes k item g)

  pub items_until-Goes :
      {A : Type 0} (k : ℕ) (closing : TokenKind D) (item : Parse D A)
      → Goes free k item
      → Goes free k (items_until closing item)
  unfolding items_until
  items_until-Goes k closing item g =
      step free k peek _ (peek-Goes k) (λ here. none_or_more-Goes k closing here item g)

  pub strict_then :
      {A B : Type 0} (k : ℕ) (p : Parser D) (o : Option (Result A × Parser D)) (f : A → Parse D B)
      → left p < suc k
      → GoodStrict p o
      → ((a : A) → Goes free k (f a))
      → GoodStrict p (and_then o f)
  strict_then k p none f l g h = g
  strict_then k p (some (ok a, q)) f l g h =
      Good-ahead p q (f a q) g.1 ((h a).at q g.0 (omega (arith, g.1)))
  strict_then k p (some (err e, q)) f l g h = g

  pub next-strict :
      {S A : Type 0} (p : Parser D) (go : S → Parse D A)
      (o : Option (Result (Round S A) × Parser D))
      → ((s : S) (q : Parser D) → IsPlain q → left q < left p → Good free q (go s q))
      → GoodStrict p o
      → GoodStrict p (and_then o (next go))
  unfolding pure
  next-strict p go none h g = g
  next-strict p go (some (ok (again s), q)) h g = Good-ahead p q (go s q) g.1 (h s q g.0 g.1)
  next-strict p go (some (ok (finish a), q)) h g = g
  next-strict p go (some (err e, q)) h g = g

  -- A loop whose first round consumes a token does so.
  pub repeat-strict :
      {S A : Type 0} (k : ℕ) (body : S → Parse D (Round S A)) (s : S) (p : Parser D)
      → ((s : S) → Goes advancing k (body s))
      → IsPlain p
      → left p < k
      → GoodStrict p (body s p)
      → GoodStrict p (repeat body s p)
  unfolding repeat rounds ◌>>=◌
  repeat-strict k body s p g w l strict =
      next-strict p (rounds body (left p)) (body s p)
        (λ s' q v h. rounds-Good k body g (left p) s' q v (omega arith) h) strict
