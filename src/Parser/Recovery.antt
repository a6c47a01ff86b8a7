-- ===== src/Parser/Recovery.antt =====
-- src/parser/mod.rs: the recovery from an error consumes a token, so the loops over statements end.
use y.Prelude.{
  ℕ, suc, ◌≤◌, ◌≡◌, if_both, if_cases, Bool, true, false, arith, [], ◌∷◌, ◌++◌, Option, none, some,
}
use y.Prelude.Loop.{Round, again, finish}
use y.Parser.State.{Result, ok, err, Parser, Parse, pure, same_kind}
use y.Parser.Goes.{
  Goes, Good, GoodStrict, Good-strict, free, moving, advancing, advancing_le, pure-Goes,
  finish-Goes, step, push_error-Goes, IsPlain, left, Good-ahead,
}
use y.Parser.CursorGoes.{bump-strict}
use y.Parser.LoopsGoes.{repeat-Goes, strict_then, repeat-strict}
use y.Prelude.{◌⊎◌, inl, inr, ◌<◌, ltb, ltb→lt, Bool-cases, sym, subst, ◌&&◌, not}
use y.Lexer.Token.{Token, TokenKind, semicolon, r_brace, eof}
use y.Parser.State.{ParseError, and_then}
use y.Parser.Cursor.{◌>>=◌, ◌>>◌, bump, peek, push_error}
use y.Parser.Blocks.{starts_stmt, resync_of, resync_round, resync, caught}

lt_or_eq : (a b : ℕ) → a ≤ b → (a < b) ⊎ (a ≡ b)
lt_or_eq a b h = elim (Bool-cases (ltb a b)) [
  | inl e ↦ inl (ltb→lt a b e)
  | inr e ↦ inr (ground arith)
]

module _ {D : Type 0} where
  resync_of-Good :
      (k : ℕ) (top_level : Bool) (p : Parser D)
      → IsPlain p
      → left p < k
      → Good advancing p (resync_of top_level p.here.kind p)
  resync_of-Good k top_level p w l =
      if_cases Q (same_kind p.here.kind eof) (λ e. stop.at p w l)
        (λ here. if_both Q (same_kind p.here.kind semicolon) (over (finish tt) here) (
          if_both Q (same_kind p.here.kind r_brace)
            (if_both Q top_level (over (again tt) here) (stop.at p w l))
            (if_both Q (starts_stmt p.here.kind) (stop.at p w l) (over (again tt) here))))
    where
      Q : Parse D (Round (Unit {0}) (Unit {0})) → Type 0
      Q m = Good advancing p (m p)

      stop : Goes (advancing {S = Unit {0}}) k (pure {D = D} (finish tt))
      stop = finish-Goes k tt

      over :
          (r : Round (Unit {0}) (Unit {0})) → same_kind p.here.kind eof ≡ false → Q (bump >> pure r)
      over r here =
          Good-strict advancing p _ advancing_le
            (bump-strict k (pure r) p (pure-Goes k r) w (omega arith) here)

  resync_round-Goes : (k : ℕ) (top_level : Bool) → Goes advancing k (resync_round {D = D} top_level)
  unfolding resync_round peek ◌>>=◌
  resync_round-Goes k top_level = record { at = λ p w l. resync_of-Good k top_level p w l }

  pub resync-Goes : (k : ℕ) (top_level : Bool) → Goes free k (resync {D = D} top_level)
  unfolding resync
  resync-Goes k top_level = repeat-Goes k _ tt (λ u. resync_round-Goes k top_level)

  -- Where `resync` does not stop at once.
  abbrev pub Passes : Bool → TokenKind D → Type 0
  Passes top_level kind =
      (same_kind kind eof ≡ false)
      × ((not top_level && same_kind kind r_brace) ≡ false)
      × (starts_stmt kind ≡ false)

  resync_of-Strict :
      (k : ℕ) (top_level : Bool) (p : Parser D)
      → IsPlain p
      → left p < k
      → Passes top_level p.here.kind
      → GoodStrict p (resync_of top_level p.here.kind p)
  resync_of-Strict k top_level p w l e =
      if_cases Q (same_kind p.here.kind eof) (λ h. absurd (ground (arith, h, e.0)))
        (λ here. if_both Q (same_kind p.here.kind semicolon) (over (finish tt) here) (
          if_cases Q (same_kind p.here.kind r_brace)
            (λ b.
              if_cases Q top_level (λ t. over (again tt) here)
                (λ t. absurd (ground (arith, t, b, e.1))))
            (λ b.
              if_cases Q (starts_stmt p.here.kind) (λ t. absurd (ground (arith, t, e.2)))
                (λ t. over (again tt) here))))
    where
      Q : Parse D (Round (Unit {0}) (Unit {0})) → Type 0
      Q m = GoodStrict p (m p)

      over :
          (r : Round (Unit {0}) (Unit {0})) → same_kind p.here.kind eof ≡ false → Q (bump >> pure r)
      over r here = bump-strict k (pure r) p (pure-Goes k r) w (omega arith) here

  resync-Strict :
      (k : ℕ) (top_level : Bool) (p : Parser D)
      → IsPlain p
      → left p < k
      → Passes top_level p.here.kind
      → GoodStrict p (resync top_level p)
  unfolding resync resync_round peek ◌>>=◌
  resync-Strict k top_level p w l e =
      repeat-strict k _ tt p (λ u. resync_round-Goes k top_level) w l
        (resync_of-Strict k top_level p w l e)

  -- What follows an error among the statements.
  abbrev pub recovered : {A : Type 0} → Bool → A → ParseError → Parse D A
  recovered top_level a e = push_error e >>= λ u. resync top_level >>= λ v. pure a

  -- What a parser of statements does: it consumes a token, if it does not fail elsewhere than at
  -- the start of a statement.
  pub record Statement {A : Type 0} (k : ℕ) (m : Parse D A) : Type 0 where
    pub run : (p : Parser D) → IsPlain p → left p < k → Good moving p (m p)
    pub strict :
        (p : Parser D)
        → IsPlain p
        → left p < k
        → starts_stmt p.here.kind ≡ true
        → GoodStrict p (m p)

  recovered-Goes :
      {A : Type 0} (k : ℕ) (top_level : Bool) (a : A) (e : ParseError)
      → Goes free k (recovered top_level a e)
  recovered-Goes k top_level a e =
      step free k _ _ (push_error-Goes k e)
        (λ u. step free k _ _ (resync-Goes k top_level) (λ v. pure-Goes k a))

  recovered-Strict :
      {A : Type 0} (k : ℕ) (top_level : Bool) (a : A) (e : ParseError) (p : Parser D)
      → IsPlain p
      → left p < k
      → Passes top_level p.here.kind
      → GoodStrict p (recovered top_level a e p)
  unfolding push_error ◌>>=◌
  recovered-Strict k top_level a e p w l h =
      strict_then k p _ _ (omega arith)
        (resync-Strict k top_level (record p { errors = p.errors ++ e ∷ [] }) w l h)
        (λ v. pure-Goes k a)

  Strict-here :
      {A : Type 0} (p q : Parser D) (o : Option (Result A × Parser D))
      → left q ≤ left p
      → GoodStrict q o
      → GoodStrict p o
  Strict-here p q none h g = g
  Strict-here p q (some r) h g = (g.0, omega (arith, g.1))

  recovered_later :
      {A : Type 0} (k : ℕ) (top_level : Bool) (b : A) (e : ParseError) (p q : Parser D)
      → left p < suc k
      → IsPlain q
      → (left q ≡ left p → q.here ≡ p.here)
      → left q ≤ left p
      → Passes top_level p.here.kind ⊎ (left q < left p)
      → GoodStrict p (recovered top_level b e q)
  recovered_later k top_level b e p q l w same le h = elim (lt_or_eq (left q) (left p) le) [
    | inl lt ↦
        Good-ahead p q (recovered top_level b e q) lt
          ((recovered-Goes k top_level b e).at q w (omega (arith, lt)))
    | inr eq ↦ elim h [
      | inr lt ↦ absurd (omega (arith, lt, eq))
      | inl passes ↦ Strict-here p q _ le (
          recovered-Strict (suc (left q)) top_level b e q w (omega arith)
            (subst (λ (t : Token D). Passes top_level t.kind) (sym (same eq)) passes))
    ]
  ]

  -- One statement, or the recovery from its error, consumes a token.
  pub attempted-Strict :
      {A B : Type 0} (k : ℕ) (top_level : Bool) (b : B) (after : Result A → Parse D B)
      (p : Parser D) (o : Option (Result A × Parser D))
      → left p < suc k
      → Passes top_level p.here.kind ⊎ GoodStrict p o
      → Good moving p o
      → ((a : A) → Goes free k (after (ok a)))
      → ((e : ParseError) → after (err e) ≡ recovered top_level b e)
      → GoodStrict p (and_then (caught o) after)
  attempted-Strict k top_level b after p none l h g n r = g
  attempted-Strict k top_level b after p (some (ok a, q)) l h g n r =
      Good-ahead p q (after (ok a) q) (omega (arith, g.1)) ((n a).at q g.0 (omega (arith, g.1)))
  attempted-Strict {B = B} k top_level b after p (some (err e, q)) l h g n r =
      subst (λ (m : Parse D B). GoodStrict p (m q)) (sym (r e))
        (recovered_later k top_level b e p q l g.0 g.2 (omega (arith, g.1))
          (elim h [ inl passes ↦ inl passes | inr strict ↦ inr strict.1 ]))
