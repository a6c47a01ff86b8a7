-- ===== src/Compiler/Examples.antt =====
-- Runs of the compiler on concrete trees; decimals are numbers.
use y.Prelude.{Option, ℕ, ◌==◌, ◌≡◌, refl, codes, Bool, false, List, [], ◌∷◌, none, some}
use y.Source.{Span, span_at, zero_pos}
use y.Ast.Types.{BinOp}
use y.Ast.Tree.{Expr, Stmt, no_expr, an_expr, no_stmts, stmt_and, Pattern, no_arms, arm_and}
use y.Parser.Run.{Program}
use y.Vm.Chunk.{as_u8, const_op, store_local_op, load_local_op, pop_local_keep_op, add_op}
use y.Compiler.State.{
  FuncCtx, function, new_ctx, Compiler, new_compiler, Outcome, done, panicked, ◌>>=◌, pure, current,
  update,
}
use y.Compiler.Emit.{emit_bytes, emit_op, emit_u8, find_const, same_const, emit_const}
use y.Compiler.Scope.{
  begin_scope, end_scope, declare_local, find_local, resolve_local, resolve_upvalue_at, add_upvalue,
  find_upvalue, emit_access, emit_load,
}
use y.Compiler.Forms.{at_top_level, emit_with, store_local, emit_if_some, emit_binop_simple}
use y.Compiler.Terms.{bind_name, add_to_pool, constant}
use y.Compiler.Flow.{block}
use y.Compiler.Compile.{compile_expr, compile_program}
use y.Compiler.Kept.{Post}
use y.Compiler.Ends.{Compiled, Finished, compile_expr-Compiled, compile_program-Finished}
use y.Compiler.Upvalues.{Place, Nearest, nearest, Finds, Conserves, resolve_upvalue_at-Finds}

abbrev here : Span
here = span_at zero_pos

abbrev same : ℕ → ℕ → Bool
same m n = m == n

-- A function that is being compiled in the script.
abbrev in_function : Compiler ℕ
in_function = record (new_compiler [] []) {
  current = new_ctx function none;
  enclosing = new_ctx function none ∷ [];
}

-- `1 + { let x = 2; x }`
abbrev sum_with_block : Expr ℕ
sum_with_block =
    Expr.bin_op BinOp.add (Expr.int 1 here)
      (Expr.block (stmt_and (Stmt.let_decl (codes "x") none (Expr.int 2 here) here) no_stmts)
        (an_expr (Expr.ident (codes "x") here)) here)
      here

-- `match 1 { y => y }`
abbrev match_binding : Expr ℕ
match_binding =
    Expr.match (Expr.int 1 here)
      (arm_and (Pattern.bind (codes "y") here) no_expr (Expr.ident (codes "y") here) here no_arms)
      here

abbrev code_of : Outcome ℕ (Unit {0}) → List ℕ
code_of (done u c) = c.current.code
code_of (panicked e c) = []

-- The local `x` has slot 0, where the operand 1 stands when the block runs.
operand_slot :
    code_of (compile_expr same sum_with_block in_function)
    ≡ as_u8 const_op
      ∷ 0
      ∷ as_u8 const_op
      ∷ 1
      ∷ as_u8 store_local_op
      ∷ 0
      ∷ as_u8 load_local_op
      ∷ 0
      ∷ as_u8 pop_local_keep_op
      ∷ 1
      ∷ as_u8 add_op
      ∷ []
unfolding compile_expr constant add_to_pool emit_const find_const same_const emit_with emit_op
    emit_u8 emit_bytes update current pure ◌>>=◌ block begin_scope end_scope declare_local
    at_top_level bind_name store_local emit_load emit_access resolve_local find_local emit_if_some
    emit_binop_simple as_u8
operand_slot = refl

compile_expr-Compiled_example :
    Post (Compiled in_function) (compile_expr same match_binding in_function)
compile_expr-Compiled_example = compile_expr-Compiled same match_binding in_function (tt, refl)

abbrev two_statements : Program ℕ
two_statements = record {
  stmts = Stmt.let_decl (codes "x") none match_binding here ∷ Stmt.expr sum_with_block ∷ [];
  span = here;
}

compile_program-Finished_example : Post (Finished same) (compile_program same two_statements [] [])
compile_program-Finished_example = compile_program-Finished same two_statements [] []

-- A function within a function within one with the local `x`.
abbrev outermost : FuncCtx ℕ
outermost = record (new_ctx function none) {
  locals = record { name = codes "x"; depth = 0; is_captured = false } ∷ [];
}

abbrev between : FuncCtx ℕ
between = new_ctx function none

resolve_upvalue_at-Finds_example :
    (place : Option Place) × Nearest (codes "x") (between ∷ outermost ∷ []) place
    × Finds place (resolve_upvalue_at (codes "x") between (between ∷ outermost ∷ []))
    × Conserves between
        (between ∷ outermost ∷ [])
        (resolve_upvalue_at (codes "x") between (between ∷ outermost ∷ []))
resolve_upvalue_at-Finds_example =
    resolve_upvalue_at-Finds (codes "x") between (between ∷ outermost ∷ [])

nearest_x : nearest (codes "x") (between ∷ outermost ∷ []) ≡ some (1, 0)
unfolding nearest find_local
nearest_x = refl

resolved_x : (resolve_upvalue_at (codes "x") between (between ∷ outermost ∷ [])).found ≡ some 0
unfolding resolve_upvalue_at find_local add_upvalue find_upvalue
resolved_x = refl
