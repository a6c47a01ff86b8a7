-- ===== src/Ast/Tree.antt =====
-- src/ast/mod.rs: expressions, statements and patterns. The fields are in the order of the source.
use y.Prelude.{ℕ, Text, Bool, List, [], ◌∷◌, Option, none, some}
use y.Source.{Span}
use y.Ast.Types.{BinOp, UnaryOp, TypeAnnot, Param, TypeDef, EnumDef, Import, ℤ}

mutual
  pub data Expr (D : Type 0) : Type 0 where
    int : ℕ → Span → Expr D
    decimal : D → Span → Expr D
    str : StrLit D → Span → Expr D
    bool : Bool → Span → Expr D
    nil : Span → Expr D
    ident : Text → Span → Expr D
    vec_lit : Exprs D → Span → Expr D
    map_lit : Entries D → Span → Expr D
    set_lit : Exprs D → Span → Expr D
    bin_op : BinOp → Expr D → Expr D → Span → Expr D
    unary_op : UnaryOp → Expr D → Span → Expr D
    pipe : Expr D → Expr D → Span → Expr D
    if_else : Expr D → Expr D → OptExpr D → Span → Expr D
    match : Expr D → MatchArms D → Span → Expr D
    lambda : List Param → Option TypeAnnot → Expr D → Span → Expr D
    block : Stmts D → OptExpr D → Span → Expr D
    paren : Expr D → Span → Expr D
    call : Expr D → Exprs D → Span → Expr D
    method_call : Expr D → Text → Exprs D → Span → Expr D
    index : Expr D → Expr D → Span → Expr D
    field : Expr D → Text → Span → Expr D
    actor_send : Expr D → Expr D → Span → Expr D
    actor_request : Expr D → Expr D → Span → Expr D
    spawn : Text → Exprs D → Span → Expr D
    raise : Expr D → Span → Expr D
    try : Expr D → RescueClauses D → OptExpr D → Span → Expr D
    transact : Expr D → Span → Expr D
    retry : Span → Expr D
    return : OptExpr D → Span → Expr D
    reply : Expr D → Span → Expr D
    yield : Span → Expr D
    await : Expr D → Span → Expr D
    shared_expr : Expr D → Span → Expr D
    assign : Expr D → Expr D → Span → Expr D
    compound_assign : BinOp → Expr D → Expr D → Span → Expr D
    while : Expr D → Expr D → Span → Expr D
    for : Text → Expr D → Expr D → Span → Expr D
    loop : Expr D → Span → Expr D
    break : OptExpr D → Span → Expr D
    continue : Span → Expr D

  pub data OptExpr (D : Type 0) : Type 0 where
    no_expr : OptExpr D
    an_expr : Expr D → OptExpr D

  pub data Exprs (D : Type 0) : Type 0 where
    no_exprs : Exprs D
    expr_and : Expr D → Exprs D → Exprs D

  pub data Entries (D : Type 0) : Type 0 where
    no_entries : Entries D
    entry_and : Expr D → Expr D → Entries D → Entries D

  -- `StrLit`: the vector of its parts.
  pub data StrLit (D : Type 0) : Type 0 where
    no_parts : StrLit D
    literal_and : Text → StrLit D → StrLit D
    part_and : Expr D → StrLit D → StrLit D

  pub data Stmt (D : Type 0) : Type 0 where
    let_decl : Text → Option TypeAnnot → Expr D → Span → Stmt D
    shared_decl : Text → Option TypeAnnot → Expr D → Span → Stmt D
    state_decl : Text → Option TypeAnnot → Expr D → Span → Stmt D
    on_clause : Text → List Param → Option TypeAnnot → Expr D → Span → Stmt D
    func_def : Text → List Param → Option TypeAnnot → Expr D → Span → Stmt D
    type_def : TypeDef → Stmt D
    enum_def : EnumDef → Stmt D
    actor_def : Text → Stmts D → Span → Stmt D
    import : Import → Stmt D
    expr : Expr D → Stmt D
    semi : Expr D → Stmt D

  pub data Stmts (D : Type 0) : Type 0 where
    no_stmts : Stmts D
    stmt_and : Stmt D → Stmts D → Stmts D

  -- A vector of `MatchArm`: pattern, guard, body and span of each.
  pub data MatchArms (D : Type 0) : Type 0 where
    no_arms : MatchArms D
    arm_and : Pattern D → OptExpr D → Expr D → Span → MatchArms D → MatchArms D

  -- A vector of `RescueClause`: type name, binding, body and span of each.
  pub data RescueClauses (D : Type 0) : Type 0 where
    no_rescues : RescueClauses D
    rescue_and : Option Text → Option Text → Expr D → Span → RescueClauses D → RescueClauses D

  pub data Pattern (D : Type 0) : Type 0 where
    wildcard : Span → Pattern D
    lit : LitPattern D → Span → Pattern D
    bind : Text → Span → Pattern D
    variant : Text → Patterns D → Span → Pattern D
    struct : FieldPatterns D → Bool → Span → Pattern D
    vec : Patterns D → Bool → Span → Pattern D
    or : Patterns D → Span → Pattern D
    guard : Pattern D → Expr D → Span → Pattern D

  pub data LitPattern (D : Type 0) : Type 0 where
    int_lit : ℤ → LitPattern D
    decimal_lit : D → LitPattern D
    str_lit : StrLit D → LitPattern D
    bool_lit : Bool → LitPattern D
    nil_lit : LitPattern D

  pub data Patterns (D : Type 0) : Type 0 where
    no_patterns : Patterns D
    pattern_and : Pattern D → Patterns D → Patterns D

  pub data FieldPatterns (D : Type 0) : Type 0 where
    no_field_patterns : FieldPatterns D
    field_and : Text → Pattern D → FieldPatterns D → FieldPatterns D

pub record MatchArm (D : Type 0) : Type 0 where
  pub pattern_of : Pattern D
  pub guard_of : OptExpr D
  pub body : Expr D
  pub span : Span

pub record RescueClause (D : Type 0) : Type 0 where
  pub type_name : Option Text
  pub binding : Option Text
  pub body : Expr D
  pub span : Span

-- The vectors, from lists.
module _ {D : Type 0} where
  abbrev pub exprs : List (Expr D) → Exprs D
  exprs [] = no_exprs
  exprs (e ∷ es) = expr_and e (exprs es)

  abbrev pub entries : List (Expr D × Expr D) → Entries D
  entries [] = no_entries
  entries ((k, v) ∷ es) = entry_and k v (entries es)

  abbrev pub stmts : List (Stmt D) → Stmts D
  stmts [] = no_stmts
  stmts (s ∷ ss) = stmt_and s (stmts ss)

  abbrev pub arms : List (MatchArm D) → MatchArms D
  arms [] = no_arms
  arms (a ∷ more) = arm_and a.pattern_of a.guard_of a.body a.span (arms more)

  abbrev pub rescues : List (RescueClause D) → RescueClauses D
  rescues [] = no_rescues
  rescues (r ∷ rs) = rescue_and r.type_name r.binding r.body r.span (rescues rs)

  abbrev pub patterns : List (Pattern D) → Patterns D
  patterns [] = no_patterns
  patterns (p ∷ ps) = pattern_and p (patterns ps)

  abbrev pub field_patterns : List (Text × Pattern D) → FieldPatterns D
  field_patterns [] = no_field_patterns
  field_patterns ((f, p) ∷ fs) = field_and f p (field_patterns fs)

  abbrev pub opt_expr : Option (Expr D) → OptExpr D
  opt_expr none = no_expr
  opt_expr (some e) = an_expr e
