-- ===== src/Parser/ControlGoes.antt =====
-- src/parser/mod.rs: the parsers of control flow, behind their keywords, consume tokens and return.
use y.Prelude.{ℕ, ◌<◌, ◌≡◌, refl, if_both, if_cases, Bool, true, false, arith, List, []}
use y.Source.{Span}
use y.Parser.State.{Parser, Parse, pure, same_kind, is_keyword}
use y.Parser.Calls.{Calls}
use y.Parser.Goes.{
  Goes, Good, Good-strict, free, advancing, advancing_le, finish-Goes, step, peek-Goes,
  span_here-Goes, IsPlain, left, spend,
}
use y.Parser.CursorGoes.{bump-strict, expect-Goes, keyword-goes_on}
use y.Parser.LoopsGoes.{repeat-Goes}
use y.Parser.Served.{Served, goes, expr_free}
use y.Lexer.Token.{eof, if_kw, rescue_kw}
use y.Ast.Tree.{Expr, MatchArm, RescueClause}
use y.Parser.Cursor.{◌>>=◌, at_kw, peek, span_here}
use y.Parser.AnnotationsGoes.{parse_params-Goes, return_type-Goes}
use y.Parser.Control.{
  if_rest, else_branch, parse_while, parse_for, one_arm, arm_round, ends_arms, parse_match,
  parse_lambda, rescue_clause, rescue_from, rescue_round, parse_try,
}

module _ {D : Type 0} (k : ℕ) (c : Calls D) (s : Served k c) where
  else_branch-Goes : Goes free k (else_branch c)
  unfolding else_branch at_kw peek span_here pure ◌>>=◌
  else_branch-Goes = record {
    at = λ p w l.
        if_cases (λ (m : Parse D (Expr D)). Good free p (m p)) (is_keyword if_kw p.here.kind)
          (λ e. s.if_expr p.here.span p e w l) (λ e. (expr_free k c 0 s).at p w l);
  }

  pub if_rest-Goes : (start : Span) → Goes free k (if_rest c start)
  unfolding if_rest
  if_rest-Goes start = search (goes, else_branch-Goes) depth 30 fits 4000

  pub parse_while-Goes : (start : Span) → Goes free k (parse_while c start)
  unfolding parse_while
  parse_while-Goes start = search goes depth 30 fits 4000

  pub parse_for-Goes : (start : Span) → Goes free k (parse_for c start)
  unfolding parse_for
  parse_for-Goes start = search goes depth 30 fits 4000

  pub parse_lambda-Goes : (start : Span) → Goes free k (parse_lambda c start)
  unfolding parse_lambda
  parse_lambda-Goes start =
      step free k _ _ (parse_params-Goes k c s)
        (λ ps. step free k _ _ (return_type-Goes k c s) (λ ret. search goes depth 30 fits 4000))

  rescue_clause-Goes :
      (done : List (RescueClause D)) (start : Span) → Goes free k (rescue_clause c done start)
  unfolding rescue_clause
  rescue_clause-Goes done start = search goes depth 40 fits 4000

  rescue_from-Goes :
      (done : List (RescueClause D)) (is_rescue : Bool) (start : Span) (p : Parser D)
      → (is_rescue ≡ true → same_kind p.here.kind eof ≡ false)
      → IsPlain p
      → left p < k
      → Good advancing p (rescue_from c done is_rescue start p)
  rescue_from-Goes done true start p e w l = Good-strict advancing p _ advancing_le (
      bump-strict k (rescue_clause c done start) p (rescue_clause-Goes done start) w (omega arith)
        (e refl))
  rescue_from-Goes done false start p e w l = (finish-Goes k done).at p w l

  rescue_round-Goes : (done : List (RescueClause D)) → Goes advancing k (rescue_round c done)
  unfolding rescue_round at_kw peek span_here pure ◌>>=◌
  rescue_round-Goes done = record {
    at = λ p w l.
        rescue_from-Goes done (is_keyword rescue_kw p.here.kind) p.here.span p
          (keyword-goes_on rescue_kw p.here.kind) w l;
  }

  pub parse_try-Goes : (start : Span) → Goes free k (parse_try c start)
  unfolding parse_try
  parse_try-Goes start = step free k _ _ (expr_free k c 0 s) (λ body.
      step free k _ _ (repeat-Goes k _ [] rescue_round-Goes)
        (λ clauses. search goes depth 30 fits 4000))

  -- A pattern, and so an arm, has at least one token.
  one_arm-Goes : (done : List (MatchArm D)) → Goes advancing k (one_arm c done)
  unfolding one_arm
  one_arm-Goes done = step advancing k _ _ (span_here-Goes k) (λ start.
      spend advancing k _ _ advancing_le s.pattern (λ pat. search goes depth 40 fits 8000))

  arm_round-Goes : (done : List (MatchArm D)) → Goes advancing k (arm_round c done)
  unfolding arm_round
  arm_round-Goes done = step advancing k _ _ (peek-Goes k) (λ here.
      if_both (Goes advancing k) (ends_arms c here) (finish-Goes k done) (one_arm-Goes done))

  pub parse_match-Goes : (start : Span) → Goes free k (parse_match c start)
  unfolding parse_match
  parse_match-Goes start = step free k _ _ (expr_free k c 0 s) (λ scrutinee.
      step free k _ _ (expect-Goes k _ _) (λ u.
        step free k _ _ (repeat-Goes k _ [] arm_round-Goes)
          (λ all. search goes depth 30 fits 4000)))
