-- ===== src/Parser/Braces.antt =====
-- src/parser/mod.rs: parenthesised expressions, and what `{` begins: a block or a map. Each function
-- starts behind the opening bracket, which its caller consumes.
use y.Prelude.{if◌then◌else◌, ◌||◌, codes, false, List, [], ◌∷◌, ◌++◌, some}
use y.Prelude.Loop.{Round, again, finish}
use y.Source.{Span}
use y.Lexer.Token.{TokenKind, describe, r_paren, r_brace, comma, colon, semicolon, eof}
use y.Ast.Tree.{Expr, OptExpr, no_expr, an_expr, Stmt, stmts, entries}
use y.Parser.State.{ParseError, said, Result, ok, err, Parse, pure, fail, same_kind}
use y.Parser.Cursor.{
  ◌>>=◌, ◌>>◌, peek, span_here, bump, error, push_error, eat, expect, up_to_here, repeat,
}
use y.Parser.Calls.{Calls}
use y.Parser.Blocks.{starts_stmt, resync, attempt, looks_like_arrow_fn}

abbrev pub arrow_error : Span → ParseError
arrow_error start = record {
  span = start;
  message = said (codes "arrow functions (`=>`) are not supported");
  hint =
      some
        (codes "1y uses `fn(params) { body }` for lambdas — try `fn() { ... }` or `fn(x) { ... }`");
}

-- The statements of a block, and its tail.
abbrev pub Body : Type 0 → Type 0
Body D = List (Stmt D) × OptExpr D

module _ {D : Type 0} (c : Calls D) where
  unfoldable pub paren_rest : Span → Parse D (Expr D)
  paren_rest start = do
    inner ← c.parse_expr 0
    expect r_paren (codes "`)`")
    span ← up_to_here start
    pure (Expr.paren inner span)

  unfoldable pub parse_paren : Span → Parse D (Expr D)
  parse_paren start = do
    is_arrow ← looks_like_arrow_fn
    if is_arrow then fail (arrow_error start) else paren_rest start

  -- A semicolon is optional behind a declaration.
  unfoldable pub keep_stmt : List (Stmt D) → Stmt D → Parse D (Round (List (Stmt D)) (Body D))
  keep_stmt done s = do
    here ← peek
    if same_kind here semicolon
        then bump >> pure (again (done ++ s ∷ []))
        else pure (again (done ++ s ∷ []))

  unfoldable pub recover : List (Stmt D) → ParseError → Parse D (Round (List (Stmt D)) (Body D))
  recover done e = do push_error e; resync false; pure (again done)

  abbrev pub after_stmt : List (Stmt D) → Result (Stmt D) → Parse D (Round (List (Stmt D)) (Body D))
  after_stmt done (ok (Stmt.expr e)) = pure (finish (done, an_expr e))
  after_stmt done (ok s) = keep_stmt done s
  after_stmt done (err e) = recover done e

  unfoldable pub block_round : List (Stmt D) → Parse D (Round (List (Stmt D)) (Body D))
  block_round done = do
    here ← peek
    if same_kind here r_brace || same_kind here eof
        then pure (finish (done, no_expr))
        else (attempt c.parse_stmt >>= after_stmt done)

  unfoldable pub continue_block_stmts : List (Stmt D) → Parse D (Body D)
  continue_block_stmts done = repeat block_round done

  unfoldable pub end_block : Span → Body D → Parse D (Expr D)
  end_block start body = do
    expect r_brace (codes "`}`")
    span ← up_to_here start
    pure (Expr.block (stmts body.0) body.1 span)

  unfoldable pub finish_block : List (Stmt D) → Span → Parse D (Expr D)
  finish_block done start = do body ← continue_block_stmts done; end_block start body

  unfoldable pub next_entry :
      List (Expr D × Expr D) → Parse D (Round (List (Expr D × Expr D)) (List (Expr D × Expr D)))
  next_entry done = do
    k ← c.parse_expr 0
    expect colon (codes "`:`")
    v ← c.parse_expr 0
    pure (again (done ++ (k, v) ∷ []))

  -- Behind an entry; a comma may trail.
  unfoldable pub entry_round :
      List (Expr D × Expr D) → Parse D (Round (List (Expr D × Expr D)) (List (Expr D × Expr D)))
  entry_round done = do
    more ← eat comma
    here ← peek
    if more
        then (if same_kind here r_brace then pure (finish done) else next_entry done)
        else pure (finish done)

  -- Behind the colon of the first entry.
  unfoldable pub map_rest : Expr D → Span → Parse D (Expr D)
  map_rest first start = do
    v ← c.parse_expr 0
    all ← repeat entry_round ((first, v) ∷ [])
    expect r_brace (codes "`}`")
    span ← up_to_here start
    pure (Expr.map_lit (entries all) span)

  -- The first expression is the tail, although something else follows.
  unfoldable pub tail_missing_brace : Expr D → Span → Parse D (Expr D)
  tail_missing_brace first start = do
    span ← span_here
    here ← peek
    error span (codes "expected `;` or `}` in block, found " ++ describe here)
    end_block start ([], an_expr first)

  unfoldable pub block_rest : Expr D → Span → TokenKind D → Parse D (Expr D)
  block_rest first start here =
      if same_kind here semicolon
      then bump >> finish_block (Stmt.semi first ∷ []) start
      else if same_kind here r_brace
      then end_block start ([], an_expr first)
      else tail_missing_brace first start

  unfoldable pub brace_rest : Expr D → Span → Parse D (Expr D)
  brace_rest first start = do
    here ← peek
    if same_kind here colon then bump >> map_rest first start else block_rest first start here

  unfoldable pub empty_map : Span → Parse D (Expr D)
  empty_map start = do span ← up_to_here start; pure (Expr.map_lit (entries []) span)

  abbrev pub brace_of : Span → TokenKind D → Parse D (Expr D)
  brace_of start here =
      if same_kind here r_brace
      then bump >> empty_map start
      else if starts_stmt here
      then finish_block [] start
      else c.parse_expr 0 >>= λ first. brace_rest first start

  unfoldable pub parse_brace_expr : Span → Parse D (Expr D)
  parse_brace_expr start = do here ← peek; brace_of start here
