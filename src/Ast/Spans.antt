-- ===== src/Ast/Spans.antt =====
-- src/ast/mod.rs: the spans of expressions and statements; src/parser/mod.rs: those of patterns.
use y.Source.{Span}
use y.Ast.Tree.{Expr, Stmt, Pattern}

module _ {D : Type 0} where
  unfoldable pub expr_span : Expr D → Span
  expr_span (Expr.int _ s) = s
  expr_span (Expr.decimal _ s) = s
  expr_span (Expr.str _ s) = s
  expr_span (Expr.bool _ s) = s
  expr_span (Expr.nil s) = s
  expr_span (Expr.ident _ s) = s
  expr_span (Expr.vec_lit _ s) = s
  expr_span (Expr.map_lit _ s) = s
  expr_span (Expr.set_lit _ s) = s
  expr_span (Expr.bin_op _ _ _ s) = s
  expr_span (Expr.unary_op _ _ s) = s
  expr_span (Expr.pipe _ _ s) = s
  expr_span (Expr.if_else _ _ _ s) = s
  expr_span (Expr.match _ _ s) = s
  expr_span (Expr.lambda _ _ _ s) = s
  expr_span (Expr.block _ _ s) = s
  expr_span (Expr.paren _ s) = s
  expr_span (Expr.call _ _ s) = s
  expr_span (Expr.method_call _ _ _ s) = s
  expr_span (Expr.index _ _ s) = s
  expr_span (Expr.field _ _ s) = s
  expr_span (Expr.actor_send _ _ s) = s
  expr_span (Expr.actor_request _ _ s) = s
  expr_span (Expr.spawn _ _ s) = s
  expr_span (Expr.raise _ s) = s
  expr_span (Expr.try _ _ _ s) = s
  expr_span (Expr.transact _ s) = s
  expr_span (Expr.retry s) = s
  expr_span (Expr.return _ s) = s
  expr_span (Expr.reply _ s) = s
  expr_span (Expr.yield s) = s
  expr_span (Expr.await _ s) = s
  expr_span (Expr.shared_expr _ s) = s
  expr_span (Expr.assign _ _ s) = s
  expr_span (Expr.compound_assign _ _ _ s) = s
  expr_span (Expr.while _ _ s) = s
  expr_span (Expr.for _ _ _ s) = s
  expr_span (Expr.loop _ s) = s
  expr_span (Expr.break _ s) = s
  expr_span (Expr.continue s) = s

  unfoldable pub stmt_span : Stmt D → Span
  unfolding expr_span
  stmt_span (Stmt.let_decl _ _ _ s) = s
  stmt_span (Stmt.shared_decl _ _ _ s) = s
  stmt_span (Stmt.state_decl _ _ _ s) = s
  stmt_span (Stmt.on_clause _ _ _ _ s) = s
  stmt_span (Stmt.func_def _ _ _ _ s) = s
  stmt_span (Stmt.type_def d) = d.span
  stmt_span (Stmt.enum_def d) = d.span
  stmt_span (Stmt.actor_def _ _ s) = s
  stmt_span (Stmt.import d) = d.span
  stmt_span (Stmt.expr e) = expr_span e
  stmt_span (Stmt.semi e) = expr_span e

  unfoldable pub pattern_span : Pattern D → Span
  pattern_span (Pattern.wildcard s) = s
  pattern_span (Pattern.lit _ s) = s
  pattern_span (Pattern.bind _ s) = s
  pattern_span (Pattern.variant _ _ s) = s
  pattern_span (Pattern.struct _ _ s) = s
  pattern_span (Pattern.vec _ _ s) = s
  pattern_span (Pattern.or _ s) = s
  pattern_span (Pattern.guard _ _ s) = s
