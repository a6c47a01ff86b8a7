-- ===== src/Parser/Served.antt =====
-- src/parser/mod.rs: the functions of each part of the grammar consume tokens, when those further down
-- do so on the tokens that are left behind a first one.
use y.Prelude.{ℕ, ◌<◌, ◌≡◌, if◌then◌else◌, Bool, true, false, Text}
use y.Source.{Span}
use y.Lexer.Token.{if_kw}
use y.Parser.State.{Parser, Parse, is_keyword}
use y.Parser.Cursor.{expect_ident}
use y.Parser.Calls.{Calls}
use y.Parser.Goes.{
  Goes, Good, IsPlain, left, free, moving, advancing, advancing_le, Goes-free, pure-Goes,
  finish-Goes, fail-Goes, step, step_moving, peek-Goes, peek_after-Goes, span_here-Goes,
  prev_span-Goes, error-Goes,
}
use y.Parser.CursorGoes.{
  up_to_here-Goes, bump-free, expect-Goes, expect_kw-Goes, expect_ident-Goes, eat-free, eat_kw-free,
  eat_kw-Goes, at_kw-Goes, opt-Goes, if-bump-Goes,
}
use y.Parser.LoopsGoes.{Goes-less, repeat-Goes, items_until-Goes}

-- The functions further down, on at most `k` tokens.
pub record Served {D : Type 0} (k : ℕ) (c : Calls D) : Type 0 where
  pub expr : (min_bp : ℕ) → Goes moving k (c.parse_expr min_bp)
  pub type : Goes moving k c.parse_type
  pub pattern : Goes moving k c.parse_pattern
  pub block_list : Goes free k c.parse_block_list
  -- It is called at the keyword only.
  pub if_expr :
      (start : Span) (p : Parser D)
      → is_keyword if_kw p.here.kind ≡ true
      → IsPlain p
      → left p < k
      → Good free p (c.parse_if start p)

module _ {D : Type 0} where
  pub expr_free :
      (k : ℕ) (c : Calls D) (min_bp : ℕ) → Served k c → Goes free k (c.parse_expr min_bp)
  expr_free k c bp s = Goes-free moving k _ (s.expr bp)

  pub type_free : (k : ℕ) (c : Calls D) → Served k c → Goes free k c.parse_type
  type_free k c s = Goes-free moving k _ s.type

  pub pattern_free : (k : ℕ) (c : Calls D) → Served k c → Goes free k c.parse_pattern
  pattern_free k c s = Goes-free moving k _ s.pattern

  pub block_list_free : (k : ℕ) (c : Calls D) → Served k c → Goes free k c.parse_block_list
  block_list_free k c s = s.block_list

  pub ident_free : (k : ℕ) (what : Text) → Goes free k (expect_ident {D = D} what)
  ident_free k what = Goes-free moving k _ (expect_ident-Goes k what)

  pub if_free :
      {A : Type 0} (k : ℕ) (b : Bool) (m n : Parse D A)
      → Goes free k m
      → Goes free k n
      → Goes free k (if b then m else n)
  if_free k true m n g h = g
  if_free k false m n g h = h

pub ruleset goes = (
  step, pure-Goes, peek-Goes, peek_after-Goes, span_here-Goes, prev_span-Goes, up_to_here-Goes,
  bump-free, expect-Goes, expect_kw-Goes, eat-free, eat_kw-free, at_kw-Goes, opt-Goes,
  items_until-Goes, error-Goes, fail-Goes, expr_free, type_free, pattern_free, block_list_free,
  ident_free, if_free,
)
