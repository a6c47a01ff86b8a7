-- ===== src/Parser/Statements.antt =====
-- src/parser/mod.rs: statements and declarations. The functions of the declarations start behind
-- their keyword, which `stmt_of` consumes.
use y.Prelude.{
  if◌then◌else◌, ◌||◌, ◌&&◌, not, Text, codes, Bool, true, false, List, [], ◌∷◌, ◌++◌, Option,
}
use y.Prelude.Loop.{Round, again, finish}
use y.Source.{Span}
use y.Lexer.Token.{
  TokenKind, keyword, let_kw, shared_kw, fn_kw, type_kw, enum_kw, actor_kw, import_kw, lazy_kw,
  state_kw, on_kw, as_kw, l_paren, r_paren, l_brace, r_brace, colon, semicolon, dot, assign, eof,
}
use y.Ast.Types.{TypeAnnot, Param, VariantDef}
use y.Ast.Tree.{Expr, Stmt, stmts}
use y.Parser.State.{Result, ok, err, Parse, pure, same_kind, is_ident}
use y.Parser.Cursor.{
  ◌>>=◌, ◌>>◌, peek, peek_after, span_here, bump, push_error, eat, eat_kw, expect, expect_ident,
  up_to_here, opt, repeat, items_until,
}
use y.Parser.Calls.{Calls}
use y.Parser.Annotations.{parse_params, return_type, parse_type_params}
use y.Parser.Blocks.{resync, attempt}

module _ {D : Type 0} (c : Calls D) where
  -- `parse_let`, `parse_shared` and `parse_state_decl`.
  unfoldable pub binding :
      (Text → Option TypeAnnot → Expr D → Span → Stmt D) → Text → Span → Parse D (Stmt D)
  binding node what start = do
    name ← expect_ident what
    is_typed ← eat colon
    annot ← opt is_typed c.parse_type
    expect assign (codes "`=`")
    value ← c.parse_expr 0
    span ← up_to_here start
    pure (node name annot value span)

  -- `parse_func_def` and `parse_on_clause`.
  unfoldable pub callable :
      (Text → List Param → Option TypeAnnot → Expr D → Span → Stmt D)
      → Text
      → Span
      → Parse D (Stmt D)
  callable node what start = do
    name ← expect_ident what
    params ← parse_params c
    ret ← return_type c
    body ← c.parse_expr 0
    span ← up_to_here start
    pure (node name params ret body span)

  unfoldable pub type_field : Parse D (Text × TypeAnnot)
  type_field = do
    name ← expect_ident (codes "field name")
    expect colon (codes "`:`")
    t ← c.parse_type
    pure (name, t)

  unfoldable pub parse_type_def : Span → Parse D (Stmt D)
  parse_type_def start = do
    name ← expect_ident (codes "type name")
    params ← parse_type_params
    expect assign (codes "`=`")
    expect l_brace (codes "`{`")
    fields ← items_until r_brace type_field
    expect r_brace (codes "`}`")
    span ← up_to_here start
    pure
        (Stmt.type_def (record { name = name; type_params = params; fields = fields; span = span }))

  abbrev pub variant_fields : Bool → Parse D (List TypeAnnot)
  variant_fields true = do
    fields ← items_until r_paren c.parse_type
    expect r_paren (codes "`)`")
    pure fields
  variant_fields false = pure []

  unfoldable pub variant_def : Parse D VariantDef
  variant_def = do
    span ← span_here
    name ← expect_ident (codes "variant name")
    has_fields ← eat l_paren
    fields ← variant_fields has_fields
    pure (record { name = name; fields = fields; span = span })

  unfoldable pub parse_enum_def : Span → Parse D (Stmt D)
  parse_enum_def start = do
    name ← expect_ident (codes "enum name")
    params ← parse_type_params
    expect l_brace (codes "`{`")
    variants ← items_until r_brace variant_def
    expect r_brace (codes "`}`")
    span ← up_to_here start
    pure (
        Stmt.enum_def
          (record { name = name; type_params = params; variants = variants; span = span }))

  unfoldable pub parse_actor_def : Span → Parse D (Stmt D)
  parse_actor_def start = do
    name ← expect_ident (codes "actor name")
    expect l_brace (codes "`{`")
    body ← c.parse_block_list
    expect r_brace (codes "`}`")
    span ← up_to_here start
    pure (Stmt.actor_def name (stmts body) span)

module _ {D : Type 0} where
  abbrev pub segment_from : Text → Bool → Parse D (Round Text Text)
  segment_from path true = do
    s ← expect_ident (codes "module path segment")
    pure (again (path ++ (codes "." ++ s)))
  segment_from path false = pure (finish path)

  unfoldable pub path_round : Text → Parse D (Round Text Text)
  path_round path = do more ← eat dot; segment_from path more

  -- Behind `import`.
  unfoldable pub import_path : Bool → Span → Parse D (Stmt D)
  import_path is_lazy start = do
    first ← expect_ident (codes "module path")
    path ← repeat path_round first
    has_alias ← eat_kw as_kw
    alias ← opt has_alias (expect_ident (codes "alias name"))
    span ← up_to_here start
    pure (Stmt.import (record { path = path; alias = alias; is_lazy = is_lazy; span = span }))

  -- Behind `lazy`.
  unfoldable pub lazy_import : Span → Parse D (Stmt D)
  lazy_import start = do expect (keyword import_kw) (codes "`import`"); import_path true start

  abbrev pub shared_is_decl : TokenKind D → TokenKind D → Bool
  shared_is_decl one two = is_ident one && (same_kind two assign || same_kind two colon)

  abbrev pub stmt_node : Bool → Expr D → Stmt D
  stmt_node true e = Stmt.semi e
  stmt_node false e = Stmt.expr e

  unfoldable pub parse_expr_stmt : Parse D (Expr D) → Parse D (Stmt D)
  parse_expr_stmt expr = do e ← expr; is_semi ← eat semicolon; pure (stmt_node is_semi e)

-- `expr` is `parse_expr(0)`.
module _ {D : Type 0} (c : Calls D) (expr : Parse D (Expr D)) where
  unfoldable pub shared_stmt : Span → Parse D (Stmt D)
  shared_stmt start = do
    one ← peek_after 0
    two ← peek_after 1
    if shared_is_decl one two
        then bump
          >> binding c (λ n t e s. Stmt.shared_decl n t e s) (codes "shared binding name") start
        else parse_expr_stmt expr

  unfoldable pub fn_stmt : Span → Parse D (Stmt D)
  fn_stmt start = do
    one ← peek_after 0
    if is_ident one
        then bump
          >> callable c (λ n ps t e s. Stmt.func_def n ps t e s) (codes "function name") start
        else parse_expr_stmt expr

  unfoldable pub stmt_of : Span → TokenKind D → Parse D (Stmt D)
  stmt_of start (keyword let_kw) =
      bump >> binding c (λ n t e s. Stmt.let_decl n t e s) (codes "let binding name") start
  stmt_of start (keyword shared_kw) = shared_stmt start
  stmt_of start (keyword fn_kw) = fn_stmt start
  stmt_of start (keyword type_kw) = bump >> parse_type_def c start
  stmt_of start (keyword enum_kw) = bump >> parse_enum_def c start
  stmt_of start (keyword actor_kw) = bump >> parse_actor_def c start
  stmt_of start (keyword import_kw) = bump >> import_path false start
  stmt_of start (keyword lazy_kw) = bump >> lazy_import start
  stmt_of start (keyword state_kw) =
      bump >> binding c (λ n t e s. Stmt.state_decl n t e s) (codes "state binding name") start
  stmt_of start (keyword on_kw) =
      bump >> callable c (λ n ps t e s. Stmt.on_clause n ps t e s) (codes "handler name") start
  stmt_of start _ = parse_expr_stmt expr

  unfoldable pub parse_stmt : Parse D (Stmt D)
  parse_stmt = do start ← span_here; here ← peek; stmt_of start here

  unfoldable pub semicolon_round : Parse D (Round (Unit {0}) (Unit {0}))
  semicolon_round = do
    here ← peek
    if same_kind here semicolon then bump >> pure (again tt) else pure (finish tt)

  unfoldable pub keep_going :
      Bool → List (Stmt D) → Result (Stmt D) → Parse D (Round (List (Stmt D)) (List (Stmt D)))
  keep_going top_level done (ok s) = pure (again (done ++ s ∷ []))
  keep_going top_level done (err e) = do push_error e; resync top_level; pure (again done)

  abbrev pub list_of :
      Bool → List (Stmt D) → TokenKind D → Parse D (Round (List (Stmt D)) (List (Stmt D)))
  list_of top_level done here =
      if same_kind here eof
      then pure (finish done)
      else if not top_level && same_kind here r_brace
      then pure (finish done)
      else (attempt parse_stmt >>= keep_going top_level done)

  unfoldable pub list_round : Bool → List (Stmt D) → Parse D (Round (List (Stmt D)) (List (Stmt D)))
  list_round top_level done = do
    repeat (λ u. semicolon_round) tt
    here ← peek
    list_of top_level done here

  unfoldable pub parse_stmt_list : Bool → Parse D (List (Stmt D))
  parse_stmt_list top_level = repeat (list_round top_level) []
