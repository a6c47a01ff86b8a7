-- ===== src/Compiler/CompileKept.antt =====
-- src/compiler/mod.rs: compile_expr keeps the scopes, and compile_stmt only adds locals, by induction on the tree.
use y.Prelude.{ℕ, ◌≤◌, refl, Bool, true, List, [], ◌∷◌, ◌++◌, Option, none, All-append, arith}
use y.Ast.Tree.{
  Expr, OptExpr, Exprs, Entries, StrLit, Stmt, Stmts, MatchArms, RescueClauses, no_expr, an_expr,
  no_exprs, expr_and, no_entries, entry_and, no_parts, literal_and, part_and, no_stmts, stmt_and,
  no_arms, arm_and, no_rescues, rescue_and,
}
use y.Compiler.Compile.{
  compile_expr, compile_or_nil, compile_callee, compile_callee_args, compile_message_args,
  compile_object, compile_target_index, compile_exprs, compile_args, compile_entries, compile_parts,
  compile_arms, compile_rescues, compile_stmt, compile_stmts, compile_member, compile_actor_body,
}
use y.Compiler.Kept.{
  Scopes, IsScoped, Runs, To, Steady, thence, Steady-step, pure-Runs, pure-Steady,
}
use y.Compiler.EmitKept.{Pending, emit_op-Steady, emit_u16-Steady}
use y.Compiler.NamesKept.{emit_load-Steady}
use y.Compiler.FunctionKept.{compile_function-Steady}
use y.Compiler.FormsKept.{emit_with-Steady, emit_closure-Steady, type_def-Steady, pipe_into-Steady}
use y.Compiler.TermsKept.{
  constant-Steady, named-Steady, named_counted-Steady, enum_def-Steady, import_module-Steady,
  literal_part-Steady, expr_part-Steady, string-Steady, map_key-Steady, compile_call_arg-Steady,
  call-Steady, compile_message-Steady, compile_assign-Steady, compound_assign-Steady,
}
use y.Compiler.FlowKept.{
  if_else-Steady, compile_binop-Steady, Grows, Steady-Grows, Grows-then, block-Steady,
}
use y.Compiler.StmtsKept.{bind_name-Grows, function_def-Grows}
use y.Compiler.MatchKept.{AllPending, match_arm-Runs, compile_match-Steady}
use y.Compiler.LoopsKept.{
  while_loop-Steady, endless_loop-Steady, break_loop-Steady, continue_loop-Steady, transact-Steady,
}
use y.Compiler.ForKept.{for_loop-Steady}
use y.Compiler.TryKept.{
  SomePending, ClausesPending, rescue_clause-Runs, compile_try-Steady, define_actor-Steady,
  actor_member-Steady,
}

module _ {D : Type 0} (same_decimal : D → D → Bool) where
  mutual
    unfolding compile_expr

    pub compile_expr-Steady : (e : Expr D) → Steady (compile_expr same_decimal e)
    compile_expr-Steady (Expr.int n s) = constant-Steady same_decimal _
    compile_expr-Steady (Expr.decimal d s) = constant-Steady same_decimal _
    compile_expr-Steady (Expr.str lit s) = string-Steady same_decimal lit _ (parts-Steady lit true)
    compile_expr-Steady (Expr.bool b s) = emit_op-Steady _
    compile_expr-Steady (Expr.nil s) = emit_op-Steady _
    compile_expr-Steady (Expr.ident name s) = emit_load-Steady same_decimal name
    compile_expr-Steady (Expr.vec_lit items s) =
        Steady-step _ _ (exprs-Steady items) (λ u. emit_with-Steady _ _)
    compile_expr-Steady (Expr.map_lit entries s) =
        Steady-step _ _ (entries-Steady entries) (λ u. emit_with-Steady _ _)
    compile_expr-Steady (Expr.set_lit items s) =
        Steady-step _ _ (exprs-Steady items) (λ u. emit_with-Steady _ _)
    compile_expr-Steady (Expr.bin_op op lhs rhs s) =
        compile_binop-Steady op _ _ (compile_expr-Steady lhs) (compile_expr-Steady rhs)
    compile_expr-Steady (Expr.unary_op op e s) =
        Steady-step _ _ (compile_expr-Steady e) (λ u. emit_op-Steady _)
    compile_expr-Steady (Expr.pipe lhs rhs s) =
        pipe_into-Steady rhs _ _ _ _ (compile_expr-Steady rhs) (callee-Steady rhs)
          (callee_args-Steady rhs)
          (compile_call_arg-Steady same_decimal lhs _ (compile_expr-Steady lhs))
    compile_expr-Steady (Expr.if_else cond t e s) =
        if_else-Steady _ _ _ (compile_expr-Steady cond) (compile_expr-Steady t) (or_nil-Steady e)
    compile_expr-Steady (Expr.match scrutinee arms s) =
        compile_match-Steady _ _ (compile_expr-Steady scrutinee)
          (λ n slot len s le w. arms-Runs arms n slot len s le w)
    compile_expr-Steady (Expr.lambda params ret body s) =
        Steady-step _ _ (compile_function-Steady _ _ _ (compile_expr-Steady body))
          (λ f. emit_closure-Steady f)
    compile_expr-Steady (Expr.block stmts tail s) =
        block-Steady _ _ (stmts-Grows stmts) (or_nil-Steady tail)
    compile_expr-Steady (Expr.paren e s) = compile_expr-Steady e
    compile_expr-Steady (Expr.call callee args s) =
        call-Steady same_decimal callee _ _ _ (exprs-Steady args) (
          Steady-step _ _ (Steady-step _ _ (compile_expr-Steady callee) (λ u. args-Steady args))
            (λ u. emit_with-Steady _ _))
    compile_expr-Steady (Expr.method_call receiver method args s) =
        Steady-step _ _
          (Steady-step _ _
            (compile_call_arg-Steady same_decimal receiver _ (compile_expr-Steady receiver))
            (λ u. args-Steady args))
          (λ u. named_counted-Steady same_decimal _ method _)
    compile_expr-Steady (Expr.index target i s) =
        Steady-step _ _ (Steady-step _ _ (compile_expr-Steady target) (λ u. compile_expr-Steady i))
          (λ u. emit_op-Steady _)
    compile_expr-Steady (Expr.field target name s) =
        Steady-step _ _ (compile_expr-Steady target) (λ u. named-Steady same_decimal _ name)
    compile_expr-Steady (Expr.actor_send actor msg s) =
        Steady-step _ _
          (Steady-step _ _ (compile_expr-Steady actor) (λ u.
            compile_message-Steady same_decimal msg _ _ (compile_expr-Steady msg)
              (message_args-Steady msg)))
          (λ u. emit_op-Steady _)
    compile_expr-Steady (Expr.actor_request actor msg s) =
        Steady-step _ _
          (Steady-step _ _ (compile_expr-Steady actor) (λ u.
            compile_message-Steady same_decimal msg _ _ (compile_expr-Steady msg)
              (message_args-Steady msg)))
          (λ u. emit_op-Steady _)
    compile_expr-Steady (Expr.spawn name args s) =
        Steady-step _ _ (exprs-Steady args) (λ u. named_counted-Steady same_decimal _ name _)
    compile_expr-Steady (Expr.raise e s) =
        Steady-step _ _ (compile_expr-Steady e) (λ u. emit_op-Steady _)
    compile_expr-Steady (Expr.try body rescues ensure s) =
        compile_try-Steady _ ensure _ _ _ (compile_expr-Steady body)
          (λ n len s le w. rescues-Runs rescues none [] n len s le w tt tt) (or_nil-Steady ensure)
    compile_expr-Steady (Expr.transact body s) = transact-Steady _ (compile_expr-Steady body)
    compile_expr-Steady (Expr.retry s) = emit_op-Steady _
    compile_expr-Steady (Expr.return value s) =
        Steady-step _ _ (or_nil-Steady value) (λ u. emit_op-Steady _)
    compile_expr-Steady (Expr.reply value s) =
        Steady-step _ _ (Steady-step _ _ (compile_expr-Steady value) (λ u. emit_op-Steady _))
          (λ u. emit_u16-Steady _)
    compile_expr-Steady (Expr.yield s) = emit_op-Steady _
    compile_expr-Steady (Expr.await e s) =
        Steady-step _ _ (compile_expr-Steady e) (λ u. emit_op-Steady _)
    compile_expr-Steady (Expr.shared_expr e s) =
        Steady-step _ _ (compile_expr-Steady e) (λ u. emit_op-Steady _)
    compile_expr-Steady (Expr.assign target value s) =
        compile_assign-Steady same_decimal target _ _ _ (compile_expr-Steady value)
          (object-Steady target) (target_index-Steady target)
    compile_expr-Steady (Expr.compound_assign op target value s) =
        compound_assign-Steady same_decimal target op _ (compile_expr-Steady value)
    compile_expr-Steady (Expr.while cond body s) =
        while_loop-Steady _ _ (compile_expr-Steady cond) (compile_expr-Steady body)
    compile_expr-Steady (Expr.for var iter body s) =
        for_loop-Steady same_decimal var _ _ (compile_expr-Steady iter) (compile_expr-Steady body)
    compile_expr-Steady (Expr.loop body s) = endless_loop-Steady _ (compile_expr-Steady body)
    compile_expr-Steady (Expr.break value s) = break_loop-Steady _ (or_nil-Steady value)
    compile_expr-Steady (Expr.continue s) = continue_loop-Steady

    or_nil-Steady : (e : OptExpr D) → Steady (compile_or_nil same_decimal e)
    or_nil-Steady no_expr = emit_op-Steady _
    or_nil-Steady (an_expr e) = compile_expr-Steady e

    callee-Steady : (e : Expr D) → Steady (compile_callee same_decimal e)
    callee-Steady (Expr.call callee args s) = compile_expr-Steady callee
    callee-Steady _ = pure-Steady tt

    callee_args-Steady : (e : Expr D) → Steady (compile_callee_args same_decimal e)
    callee_args-Steady (Expr.call callee args s) = args-Steady args
    callee_args-Steady _ = pure-Steady tt

    message_args-Steady : (e : Expr D) → Steady (compile_message_args same_decimal e)
    message_args-Steady (Expr.call callee args s) = exprs-Steady args
    message_args-Steady _ = pure-Steady tt

    object-Steady : (e : Expr D) → Steady (compile_object same_decimal e)
    object-Steady (Expr.index target i s) = compile_expr-Steady target
    object-Steady (Expr.field target name s) = compile_expr-Steady target
    object-Steady _ = pure-Steady tt

    target_index-Steady : (e : Expr D) → Steady (compile_target_index same_decimal e)
    target_index-Steady (Expr.index target i s) = compile_expr-Steady i
    target_index-Steady _ = pure-Steady tt

    exprs-Steady : (es : Exprs D) → Steady (compile_exprs same_decimal es)
    exprs-Steady no_exprs = pure-Steady tt
    exprs-Steady (expr_and e es) = Steady-step _ _ (compile_expr-Steady e) (λ u. exprs-Steady es)

    args-Steady : (es : Exprs D) → Steady (compile_args same_decimal es)
    args-Steady no_exprs = pure-Steady tt
    args-Steady (expr_and e es) =
        Steady-step _ _ (compile_call_arg-Steady same_decimal e _ (compile_expr-Steady e))
          (λ u. args-Steady es)

    entries-Steady : (es : Entries D) → Steady (compile_entries same_decimal es)
    entries-Steady no_entries = pure-Steady tt
    entries-Steady (entry_and k v es) =
        Steady-step _ _
          (Steady-step _ _ (map_key-Steady same_decimal k _ (compile_expr-Steady k))
            (λ u. compile_call_arg-Steady same_decimal v _ (compile_expr-Steady v)))
          (λ u. entries-Steady es)

    parts-Steady : (lit : StrLit D) (first : Bool) → Steady (compile_parts same_decimal lit first)
    parts-Steady no_parts first = pure-Steady first
    parts-Steady (literal_and s rest) first =
        literal_part-Steady same_decimal s first _ (λ b. parts-Steady rest b)
    parts-Steady (part_and e rest) first =
        expr_part-Steady same_decimal _ first _ (compile_expr-Steady e) (λ b. parts-Steady rest b)

    arms-Runs :
        (arms : MatchArms D) (n slot len : ℕ) (s : Scopes)
        → n ≤ len
        → IsScoped s
        → Runs n len s (compile_arms same_decimal arms slot) (To s (AllPending n))
    arms-Runs no_arms n slot len s le w = pure-Runs n len s [] _ (refl, tt)
    arms-Runs (arm_and p g body span arms) n slot len s le w =
        thence n len s s (Pending n) _ _ _
          (match_arm-Runs n len slot s p g _ _ (or_nil-Steady g) (compile_expr-Steady body) le w)
          (λ j l1 h1 q1.
            thence n l1 s s (AllPending n) _ _ _ (arms-Runs arms n slot l1 s (omega arith) w)
              (λ js l2 h2 q2.
                pure-Runs n l2 s (j ∷ js) _ (refl, ((q1.0, omega (arith, q1.1)), q2))))

    rescues-Runs :
        (rescues : RescueClauses D) (next : Option ℕ) (exits : List ℕ) (n len : ℕ) (s : Scopes)
        → n ≤ len
        → IsScoped s
        → SomePending n next len
        → AllPending n exits len
        → Runs n len s (compile_rescues same_decimal rescues next exits) (To s (ClausesPending n))
    rescues-Runs no_rescues next exits n len s le w p q =
        pure-Runs n len s (next, exits) _ (refl, (p, q))
    rescues-Runs (rescue_and t b body span more) next exits n len s le w p q =
        thence n len s s _ _ _ _
          (rescue_clause-Runs same_decimal n len s next t b _ (compile_expr-Steady body) le w p)
          (λ r l1 h1 q1. rescues-Runs more r.0 (exits ++ r.1 ∷ []) n l1 s (omega arith) w q1.0 (
            All-append (λ o. Pending n o l1) exits (r.1 ∷ [])
              (y.Compiler.MatchKept.AllPending-later n exits len l1 h1 q) (q1.1, tt)))

    pub compile_stmt-Grows : (s : Stmt D) → Grows (compile_stmt same_decimal s)
    compile_stmt-Grows (Stmt.let_decl name t value s) =
        Grows-then _ _ (Steady-Grows _ (compile_expr-Steady value))
          (bind_name-Grows same_decimal name)
    compile_stmt-Grows (Stmt.shared_decl name t value s) =
        Grows-then _ _
          (Steady-Grows _ (Steady-step _ _ (compile_expr-Steady value) (λ u. emit_op-Steady _)))
          (bind_name-Grows same_decimal name)
    compile_stmt-Grows (Stmt.state_decl name t value s) = Steady-Grows _ (pure-Steady tt)
    compile_stmt-Grows (Stmt.on_clause name params t body s) = Steady-Grows _ (pure-Steady tt)
    compile_stmt-Grows (Stmt.func_def name params t body s) =
        function_def-Grows same_decimal name _ _ (compile_expr-Steady body)
    compile_stmt-Grows (Stmt.type_def d) = Steady-Grows _ (type_def-Steady d.name)
    compile_stmt-Grows (Stmt.enum_def d) = Steady-Grows _ (enum_def-Steady same_decimal d.variants)
    compile_stmt-Grows (Stmt.actor_def name body s) =
        Steady-Grows _ (define_actor-Steady same_decimal name _ (actor_body-Steady body))
    compile_stmt-Grows (Stmt.import i) = Steady-Grows _ (import_module-Steady same_decimal i)
    compile_stmt-Grows (Stmt.expr e) =
        Steady-Grows _ (Steady-step _ _ (compile_expr-Steady e) (λ u. emit_op-Steady _))
    compile_stmt-Grows (Stmt.semi e) =
        Steady-Grows _ (Steady-step _ _ (compile_expr-Steady e) (λ u. emit_op-Steady _))

    stmts-Grows : (ss : Stmts D) → Grows (compile_stmts same_decimal ss)
    stmts-Grows no_stmts = Steady-Grows _ (pure-Steady tt)
    stmts-Grows (stmt_and s ss) = Grows-then _ _ (compile_stmt-Grows s) (stmts-Grows ss)

    member-Steady : (s : Stmt D) → Steady (compile_member same_decimal s)
    member-Steady (Stmt.state_decl name t value s) =
        Steady-step _ _ (compile_expr-Steady value) (λ u. named-Steady same_decimal _ name)
    member-Steady (Stmt.func_def name params t body s) =
        actor_member-Steady same_decimal _ name _ _ (compile_expr-Steady body)
    member-Steady (Stmt.on_clause name params t body s) =
        actor_member-Steady same_decimal _ name _ _ (compile_expr-Steady body)
    member-Steady _ = pure-Steady tt

    actor_body-Steady : (ss : Stmts D) → Steady (compile_actor_body same_decimal ss)
    actor_body-Steady no_stmts = pure-Steady tt
    actor_body-Steady (stmt_and s ss) =
        Steady-step _ _ (member-Steady s) (λ u. actor_body-Steady ss)
