-- ===== src/Parser/Primary.antt =====
-- src/parser/mod.rs: operands: prefix operators, postfix operators, and `parse_primary`, over the
-- parsers of the bracketed forms and of control flow.
use y.Prelude.{if◌then◌else◌, ◌||◌, Text, codes, Bool, true, false, List, ◌++◌}
use y.Prelude.Loop.{Round, again, finish}
use y.Source.{Span}
use y.Lexer.Token.{
  TokenKind, as_str, describe, int, decimal, str, ident, keyword, true_kw, false_kw, nil_kw, if_kw,
  match_kw, fn_kw, raise_kw, return_kw, reply_kw, yield_kw, await_kw, shared_kw, transact_kw,
  retry_kw, try_kw, while_kw, for_kw, loop_kw, break_kw, continue_kw, spawn_kw, not_kw, l_paren,
  r_paren, l_brace, r_brace, l_bracket, r_bracket, hash_brace, comma, semicolon, dot, minus, eof,
}
use y.Ast.Types.{UnaryOp}
use y.Ast.Tree.{Expr, exprs, OptExpr}
use y.Ast.Spans.{expr_span}
use y.Parser.State.{Parse, ParserLibrary, pure, same_kind}
use y.Parser.Cursor.{
  ◌>>=◌, ◌>>◌, peek, span_here, bump, expect, expect_ident, error_at, up_to_here, repeat,
  items_until,
}
use y.Parser.Calls.{Calls}
use y.Parser.Strings.{build_string}
use y.Parser.Braces.{parse_brace_expr, parse_paren}
use y.Parser.Control.{parse_match, parse_lambda, parse_try, parse_while, parse_for, parse_if}

module _ {D : Type 0} where
  -- What may follow `return` and `break` without a value.
  abbrev pub ends_value : TokenKind D → Bool
  ends_value k =
      same_kind k semicolon || same_kind k r_brace || same_kind k eof || same_kind k comma

module _ {D : Type 0} (c : Calls D) where
  unfoldable pub parse_args : Parse D (List (Expr D))
  parse_args = do
    args ← items_until r_paren (c.parse_expr 0)
    expect r_paren (codes "`)`")
    pure args

  -- The brackets of a vector or a set, behind the opening one.
  unfoldable pub collection :
      TokenKind D → Text → (List (Expr D) → Span → Expr D) → Span → Parse D (Expr D)
  collection closing what node start = do
    items ← items_until closing (c.parse_expr 0)
    expect closing what
    span ← up_to_here start
    pure (node items span)

  -- A keyword with an expression, behind the keyword.
  unfoldable pub keyword_expr : (Expr D → Span → Expr D) → Span → Parse D (Expr D)
  keyword_expr node start = do e ← c.parse_expr 0; span ← up_to_here start; pure (node e span)

  unfoldable pub keyword_alone : (Span → Expr D) → Span → Parse D (Expr D)
  keyword_alone node start = do span ← up_to_here start; pure (node span)

  abbrev pub value_unless : Bool → Parse D (OptExpr D)
  value_unless true = pure OptExpr.no_expr
  value_unless false = do e ← c.parse_expr 0; pure (OptExpr.an_expr e)

  unfoldable pub keyword_value : (OptExpr D → Span → Expr D) → Span → Parse D (Expr D)
  keyword_value node start = do
    here ← peek
    value ← value_unless (ends_value here)
    span ← up_to_here start
    pure (node value span)

  unfoldable pub parse_spawn : Span → Parse D (Expr D)
  parse_spawn start = do
    name ← expect_ident (codes "actor name after `spawn`")
    expect l_paren (codes "`(`")
    args ← parse_args
    span ← up_to_here start
    pure (Expr.spawn name (exprs args) span)

module _ {D : Type 0} (lib : ParserLibrary D) (c : Calls D) where
  unfoldable pub primary_of : Span → TokenKind D → Parse D (Expr D)
  primary_of start (int n) = bump >> pure (Expr.int n start)
  primary_of start (decimal d) = bump >> pure (Expr.decimal d start)
  primary_of start (str parts) = bump >> build_string lib c parts start
  primary_of start (keyword true_kw) = bump >> pure (Expr.bool true start)
  primary_of start (keyword false_kw) = bump >> pure (Expr.bool false start)
  primary_of start (keyword nil_kw) = bump >> pure (Expr.nil start)
  primary_of start (ident name) = bump >> pure (Expr.ident name start)
  primary_of start l_paren = bump >> parse_paren c start
  primary_of start l_bracket =
      bump >> collection c r_bracket (codes "`]`") (λ es s. Expr.vec_lit (exprs es) s) start
  primary_of start hash_brace =
      bump >> collection c r_brace (codes "`}`") (λ es s. Expr.set_lit (exprs es) s) start
  primary_of start l_brace = bump >> parse_brace_expr c start
  primary_of start (keyword if_kw) = parse_if c start
  primary_of start (keyword match_kw) = bump >> parse_match c start
  primary_of start (keyword fn_kw) = bump >> parse_lambda c start
  primary_of start (keyword raise_kw) = bump >> keyword_expr c (λ e s. Expr.raise e s) start
  primary_of start (keyword return_kw) = bump >> keyword_value c (λ e s. Expr.return e s) start
  primary_of start (keyword reply_kw) = bump >> keyword_expr c (λ e s. Expr.reply e s) start
  primary_of start (keyword yield_kw) = bump >> keyword_alone c (λ s. Expr.yield s) start
  primary_of start (keyword await_kw) = bump >> keyword_expr c (λ e s. Expr.await e s) start
  primary_of start (keyword shared_kw) = bump >> keyword_expr c (λ e s. Expr.shared_expr e s) start
  primary_of start (keyword transact_kw) = bump >> keyword_expr c (λ e s. Expr.transact e s) start
  primary_of start (keyword retry_kw) = bump >> keyword_alone c (λ s. Expr.retry s) start
  primary_of start (keyword try_kw) = bump >> parse_try c start
  primary_of start (keyword while_kw) = bump >> parse_while c start
  primary_of start (keyword for_kw) = bump >> parse_for c start
  primary_of start (keyword loop_kw) = bump >> keyword_expr c (λ e s. Expr.loop e s) start
  primary_of start (keyword break_kw) = bump >> keyword_value c (λ e s. Expr.break e s) start
  primary_of start (keyword continue_kw) = bump >> keyword_alone c (λ s. Expr.continue s) start
  primary_of start (keyword spawn_kw) = bump >> parse_spawn c start
  primary_of start other =
      error_at start (codes "unexpected " ++ (describe other ++ codes " in expression"))

  unfoldable pub parse_primary : Parse D (Expr D)
  parse_primary = do start ← span_here; here ← peek; primary_of start here

  -- Behind `(`.
  unfoldable pub call_rest : Expr D → Parse D (Round (Expr D) (Expr D))
  call_rest lhs = do
    args ← parse_args c
    span ← up_to_here (expr_span lhs)
    pure (again (Expr.call lhs (exprs args) span))

  -- Behind `[`.
  unfoldable pub index_rest : Expr D → Parse D (Round (Expr D) (Expr D))
  index_rest lhs = do
    i ← c.parse_expr 0
    expect r_bracket (codes "`]`")
    span ← up_to_here (expr_span lhs)
    pure (again (Expr.index lhs i span))

  -- Keywords are names behind a dot.
  unfoldable pub member_name : TokenKind D → Parse D Text
  member_name (ident s) = bump >> pure s
  member_name (keyword kw) = bump >> pure (as_str kw)
  member_name other = span_here >>= λ span.
      error_at span (codes "expected field or method name, found " ++ describe other)

  unfoldable pub method_rest : Expr D → Text → Parse D (Round (Expr D) (Expr D))
  method_rest lhs name = do
    args ← parse_args c
    span ← up_to_here (expr_span lhs)
    pure (again (Expr.method_call lhs name (exprs args) span))

  unfoldable pub field_rest : Expr D → Text → Parse D (Round (Expr D) (Expr D))
  field_rest lhs name = do
    span ← up_to_here (expr_span lhs)
    pure (again (Expr.field lhs name span))

  -- Behind `.`.
  unfoldable pub member_rest : Expr D → Parse D (Round (Expr D) (Expr D))
  member_rest lhs = do
    here ← peek
    name ← member_name here
    behind ← peek
    if same_kind behind l_paren then bump >> method_rest lhs name else field_rest lhs name

  unfoldable pub postfix_of : Expr D → TokenKind D → Parse D (Round (Expr D) (Expr D))
  postfix_of lhs l_paren = bump >> call_rest lhs
  postfix_of lhs l_bracket = bump >> index_rest lhs
  postfix_of lhs dot = bump >> member_rest lhs
  postfix_of lhs _ = pure (finish lhs)

  unfoldable pub postfix_round : Expr D → Parse D (Round (Expr D) (Expr D))
  postfix_round lhs = do here ← peek; postfix_of lhs here

  unfoldable pub parse_postfix : Parse D (Expr D)
  parse_postfix = do lhs ← parse_primary; repeat postfix_round lhs

  -- The operand of a prefix operator, behind the operator.
  unfoldable pub unary_rest : UnaryOp → Span → Parse D (Expr D)
  unary_rest op start = do
    operand ← c.parse_expr 15
    span ← up_to_here start
    pure (Expr.unary_op op operand span)

  unfoldable pub prefix_of : Span → TokenKind D → Parse D (Expr D)
  prefix_of start minus = bump >> unary_rest UnaryOp.neg start
  prefix_of start (keyword not_kw) = bump >> unary_rest UnaryOp.not start
  prefix_of start _ = parse_postfix

  unfoldable pub parse_prefix : Parse D (Expr D)
  parse_prefix = do start ← span_here; here ← peek; prefix_of start here
