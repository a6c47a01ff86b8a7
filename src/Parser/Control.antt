-- ===== src/Parser/Control.antt =====
-- src/parser/mod.rs: conditionals, loops, `match`, lambdas and `try`. Each function but `parse_if`
-- starts behind its keyword, which its caller consumes.
use y.Prelude.{if◌then◌else◌, ◌||◌, codes, Bool, true, false, List, [], ◌∷◌, ◌++◌}
use y.Prelude.Loop.{Round, again, finish}
use y.Source.{Span}
use y.Lexer.Token.{
  TokenKind, if_kw, else_kw, in_kw, rescue_kw, ensure_kw, as_kw, l_brace, r_brace, comma, fat_arrow,
  eof,
}
use y.Ast.Tree.{Expr, MatchArm, RescueClause, opt_expr, arms, rescues}
use y.Parser.State.{Parse, pure, same_kind, is_ident}
use y.Parser.Cursor.{
  ◌>>=◌, ◌>>◌, peek, span_here, bump, eat, at_kw, eat_kw, expect, expect_kw, expect_ident,
  up_to_here, opt, repeat,
}
use y.Parser.Calls.{Calls}
use y.Parser.Annotations.{parse_params, return_type}

module _ {D : Type 0} (c : Calls D) where
  unfoldable pub else_branch : Parse D (Expr D)
  else_branch = do
    is_if ← at_kw if_kw
    start ← span_here
    if is_if then c.parse_if start else c.parse_expr 0

  unfoldable pub if_rest : Span → Parse D (Expr D)
  if_rest start = do
    cond ← c.parse_expr 0
    then_ ← c.parse_expr 0
    has_else ← eat_kw else_kw
    else_ ← opt has_else else_branch
    span ← up_to_here start
    pure (Expr.if_else cond then_ (opt_expr else_) span)

  unfoldable pub parse_if : Span → Parse D (Expr D)
  parse_if start = bump >> if_rest start

  unfoldable pub parse_while : Span → Parse D (Expr D)
  parse_while start = do
    cond ← c.parse_expr 0
    body ← c.parse_expr 0
    span ← up_to_here start
    pure (Expr.while cond body span)

  unfoldable pub parse_for : Span → Parse D (Expr D)
  parse_for start = do
    var ← expect_ident (codes "loop variable after `for`")
    expect_kw in_kw (codes "`in`")
    iter ← c.parse_expr 0
    body ← c.parse_expr 0
    span ← up_to_here start
    pure (Expr.for var iter body span)

  abbrev pub ends_arms : TokenKind D → Bool
  ends_arms k = same_kind k r_brace || same_kind k eof

  -- A comma, or nothing behind which the arms end.
  abbrev pub after_arm :
      List (MatchArm D) → Bool → TokenKind D → Round (List (MatchArm D)) (List (MatchArm D))
  after_arm done true here = again done
  after_arm done false here = if ends_arms here then finish done else again done

  unfoldable pub one_arm :
      List (MatchArm D) → Parse D (Round (List (MatchArm D)) (List (MatchArm D)))
  one_arm done = do
    start ← span_here
    pat ← c.parse_pattern
    has_guard ← eat_kw if_kw
    guard ← opt has_guard (c.parse_expr 0)
    expect fat_arrow (codes "`=>`")
    body ← c.parse_expr 0
    span ← up_to_here start
    more ← eat comma
    here ← peek
    pure (
        after_arm
          (done
            ++ record { pattern_of = pat; guard_of = opt_expr guard; body = body; span = span }
              ∷ [])
          more here)

  unfoldable pub arm_round :
      List (MatchArm D) → Parse D (Round (List (MatchArm D)) (List (MatchArm D)))
  arm_round done = do here ← peek; if ends_arms here then pure (finish done) else one_arm done

  unfoldable pub parse_match : Span → Parse D (Expr D)
  parse_match start = do
    scrutinee ← c.parse_expr 0
    expect l_brace (codes "`{`")
    all ← repeat arm_round []
    expect r_brace (codes "`}`")
    span ← up_to_here start
    pure (Expr.match scrutinee (arms all) span)

  unfoldable pub parse_lambda : Span → Parse D (Expr D)
  parse_lambda start = do
    params ← parse_params c
    ret ← return_type c
    body ← c.parse_expr 0
    span ← up_to_here start
    pure (Expr.lambda params ret body span)

  -- Behind `rescue`.
  unfoldable pub rescue_clause :
      List (RescueClause D) → Span → Parse D (Round (List (RescueClause D)) (List (RescueClause D)))
  rescue_clause done start = do
    here ← peek
    type_name ← opt (is_ident here) (expect_ident (codes "exception type name"))
    has_bind ← eat_kw as_kw
    binding ← opt has_bind (expect_ident (codes "binding name"))
    body ← c.parse_expr 0
    span ← up_to_here start
    pure (
        again (
          done
          ++ record { type_name = type_name; binding = binding; body = body; span = span } ∷ []))

  abbrev pub rescue_from :
      List (RescueClause D)
      → Bool
      → Span
      → Parse D (Round (List (RescueClause D)) (List (RescueClause D)))
  rescue_from done true start = bump >> rescue_clause done start
  rescue_from done false start = pure (finish done)

  unfoldable pub rescue_round :
      List (RescueClause D) → Parse D (Round (List (RescueClause D)) (List (RescueClause D)))
  rescue_round done = do
    is_rescue ← at_kw rescue_kw
    start ← span_here
    rescue_from done is_rescue start

  unfoldable pub parse_try : Span → Parse D (Expr D)
  parse_try start = do
    body ← c.parse_expr 0
    clauses ← repeat rescue_round []
    has_ensure ← eat_kw ensure_kw
    ensure ← opt has_ensure (c.parse_expr 0)
    span ← up_to_here start
    pure (Expr.try body (rescues clauses) (opt_expr ensure) span)
