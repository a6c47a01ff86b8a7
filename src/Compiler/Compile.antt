-- ===== src/Compiler/Compile.antt =====
-- src/compiler/mod.rs: compile_expr, compile_stmt and compile_program, by structural recursion on the tree.
use y.Prelude.{ℕ, Text, Bool, true, false, List, [], ◌∷◌, ◌++◌, Option, none, map}
use y.Ast.Types.{Param}
use y.Ast.Tree.{
  Expr, OptExpr, Exprs, Entries, StrLit, Stmt, Stmts, MatchArms, RescueClauses, no_expr, an_expr,
  no_exprs, expr_and, no_entries, entry_and, no_parts, literal_and, part_and, no_stmts, stmt_and,
  no_arms, arm_and, no_rescues, rescue_and,
}
use y.Vm.Chunk.{
  OpCode, nil_op, true_op, false_op, pop_op, new_vec_op, new_map_op, new_set_op, call_op,
  method_call_op, return_op, index_op, field_op, retry_op, raise_op, shared_expr_op, yield_op,
  reply_op, await_op, spawn_op, actor_send_op, actor_request_op, define_global_op,
  register_handler_op,
}
use y.Compiler.State.{Const, new_compiler, Outcome, Compile, ◌>>=◌, ◌>>◌, pure}
use y.Compiler.Emit.{emit_op, emit_u16, as_byte}
use y.Compiler.Scope.{emit_load}
use y.Compiler.Forms.{
  count_exprs, count_entries, compile_function, emit_closure, emit_with, unary, type_def, pipe_into,
}
use y.Compiler.Terms.{
  named, named_counted, constant, bind_name, function_def, enum_def, import_module, literal_part,
  expr_part, string, map_key, compile_call_arg, call, compile_message, compile_assign,
  compound_assign,
}
use y.Compiler.Flow.{
  has_catch_all, if_else, compile_binop, block, match_arm, compile_match, while_loop, endless_loop,
  break_loop, continue_loop, transact, compile_try,
}
use y.Compiler.ForLoop.{for_loop}
use y.Compiler.Rescue.{rescue_clause, define_actor, actor_member}
use y.Parser.Run.{Program}

abbrev pub param_names : List Param → List Text
param_names ps = map (λ p. p.name) ps

abbrev pub bool_op : Bool → OpCode
bool_op true = true_op
bool_op false = false_op

module _ {D : Type 0} (same_decimal : D → D → Bool) where
  unfoldable mutual
    pub compile_expr : Expr D → Compile D (Unit {0})
    compile_expr (Expr.int n s) = constant same_decimal (Const.int n)
    compile_expr (Expr.decimal d s) = constant same_decimal (Const.decimal d)
    compile_expr (Expr.str lit s) = string same_decimal lit (compile_parts lit true)
    compile_expr (Expr.bool b s) = emit_op (bool_op b)
    compile_expr (Expr.nil s) = emit_op nil_op
    compile_expr (Expr.ident name s) = emit_load same_decimal name
    compile_expr (Expr.vec_lit items s) =
        compile_exprs items >> emit_with new_vec_op (as_byte (count_exprs items))
    compile_expr (Expr.map_lit entries s) =
        compile_entries entries >> emit_with new_map_op (as_byte (count_entries entries))
    compile_expr (Expr.set_lit items s) =
        compile_exprs items >> emit_with new_set_op (as_byte (count_exprs items))
    compile_expr (Expr.bin_op op lhs rhs s) = compile_binop op (compile_expr lhs) (compile_expr rhs)
    compile_expr (Expr.unary_op op e s) = compile_expr e >> emit_op (unary op)
    compile_expr (Expr.pipe lhs rhs s) =
        pipe_into rhs (compile_expr rhs) (compile_callee rhs) (compile_callee_args rhs)
          (compile_call_arg same_decimal lhs (compile_expr lhs))
    compile_expr (Expr.if_else cond then_code else_code s) =
        if_else (compile_expr cond) (compile_expr then_code) (compile_or_nil else_code)
    compile_expr (Expr.match scrutinee arms s) =
        compile_match (compile_expr scrutinee) (compile_arms arms)
    compile_expr (Expr.lambda params ret body s) =
        compile_function none (param_names params) (compile_expr body) >>= emit_closure
    compile_expr (Expr.block stmts tail s) = block (compile_stmts stmts) (compile_or_nil tail)
    compile_expr (Expr.paren e s) = compile_expr e
    compile_expr (Expr.call callee args s) =
        call same_decimal callee (count_exprs args) (compile_exprs args) (
          compile_expr callee
          >> compile_args args
          >> emit_with call_op (as_byte (count_exprs args)))
    compile_expr (Expr.method_call receiver method args s) =
        compile_call_arg same_decimal receiver (compile_expr receiver)
        >> compile_args args
        >> named_counted same_decimal method_call_op method (count_exprs args)
    compile_expr (Expr.index target i s) = compile_expr target >> compile_expr i >> emit_op index_op
    compile_expr (Expr.field target name s) =
        compile_expr target >> named same_decimal field_op name
    compile_expr (Expr.actor_send actor msg s) =
        compile_expr actor
        >> compile_message same_decimal msg (compile_expr msg) (compile_message_args msg)
        >> emit_op actor_send_op
    compile_expr (Expr.actor_request actor msg s) =
        compile_expr actor
        >> compile_message same_decimal msg (compile_expr msg) (compile_message_args msg)
        >> emit_op actor_request_op
    compile_expr (Expr.spawn name args s) =
        compile_exprs args >> named_counted same_decimal spawn_op name (count_exprs args)
    compile_expr (Expr.raise e s) = compile_expr e >> emit_op raise_op
    compile_expr (Expr.try body rescues ensure s) =
        compile_try (has_catch_all rescues) ensure (compile_expr body)
          (compile_rescues rescues none []) (compile_or_nil ensure)
    compile_expr (Expr.transact body s) = transact (compile_expr body)
    compile_expr (Expr.retry s) = emit_op retry_op
    compile_expr (Expr.return value s) = compile_or_nil value >> emit_op return_op
    compile_expr (Expr.reply value s) = compile_expr value >> emit_op reply_op >> emit_u16 1
    compile_expr (Expr.yield s) = emit_op yield_op
    compile_expr (Expr.await e s) = compile_expr e >> emit_op await_op
    compile_expr (Expr.shared_expr e s) = compile_expr e >> emit_op shared_expr_op
    compile_expr (Expr.assign target value s) =
        compile_assign same_decimal target (compile_expr value) (compile_object target)
          (compile_target_index target)
    compile_expr (Expr.compound_assign op target value s) =
        compound_assign same_decimal target op (compile_expr value)
    compile_expr (Expr.while cond body s) = while_loop (compile_expr cond) (compile_expr body)
    compile_expr (Expr.for var iter body s) =
        for_loop same_decimal var (compile_expr iter) (compile_expr body)
    compile_expr (Expr.loop body s) = endless_loop (compile_expr body)
    compile_expr (Expr.break value s) = break_loop (compile_or_nil value)
    compile_expr (Expr.continue s) = continue_loop

    pub compile_or_nil : OptExpr D → Compile D (Unit {0})
    compile_or_nil no_expr = emit_op nil_op
    compile_or_nil (an_expr e) = compile_expr e

    -- The parts of an expression that the code around it compiles itself.
    pub compile_callee : Expr D → Compile D (Unit {0})
    compile_callee (Expr.call callee args s) = compile_expr callee
    compile_callee _ = pure tt

    pub compile_callee_args : Expr D → Compile D (Unit {0})
    compile_callee_args (Expr.call callee args s) = compile_args args
    compile_callee_args _ = pure tt

    pub compile_message_args : Expr D → Compile D (Unit {0})
    compile_message_args (Expr.call callee args s) = compile_exprs args
    compile_message_args _ = pure tt

    pub compile_object : Expr D → Compile D (Unit {0})
    compile_object (Expr.index target i s) = compile_expr target
    compile_object (Expr.field target name s) = compile_expr target
    compile_object _ = pure tt

    pub compile_target_index : Expr D → Compile D (Unit {0})
    compile_target_index (Expr.index target i s) = compile_expr i
    compile_target_index _ = pure tt

    pub compile_exprs : Exprs D → Compile D (Unit {0})
    compile_exprs no_exprs = pure tt
    compile_exprs (expr_and e es) = compile_expr e >> compile_exprs es

    pub compile_args : Exprs D → Compile D (Unit {0})
    compile_args no_exprs = pure tt
    compile_args (expr_and e es) =
        compile_call_arg same_decimal e (compile_expr e) >> compile_args es

    pub compile_entries : Entries D → Compile D (Unit {0})
    compile_entries no_entries = pure tt
    compile_entries (entry_and k v es) =
        map_key same_decimal k (compile_expr k)
        >> compile_call_arg same_decimal v (compile_expr v)
        >> compile_entries es

    -- Whether no part has been pushed yet, before and after.
    pub compile_parts : StrLit D → Bool → Compile D Bool
    compile_parts no_parts first = pure first
    compile_parts (literal_and s rest) first =
        literal_part same_decimal s first (compile_parts rest)
    compile_parts (part_and e rest) first =
        expr_part same_decimal (compile_expr e) first (compile_parts rest)

    pub compile_arms : MatchArms D → ℕ → Compile D (List ℕ)
    compile_arms no_arms slot = pure []
    compile_arms (arm_and pattern guard body s arms) slot =
        match_arm slot pattern guard (compile_or_nil guard) (compile_expr body) >>= λ j.
        compile_arms arms slot >>= λ js. pure (j ∷ js)

    -- The jump of the last clause's test, and those behind the handlers, with the ones before.
    pub compile_rescues : RescueClauses D → Option ℕ → List ℕ → Compile D (Option ℕ × List ℕ)
    compile_rescues no_rescues next exits = pure (next, exits)
    compile_rescues (rescue_and type bind body s more) next exits =
        rescue_clause same_decimal next type bind (compile_expr body) >>= λ jumps.
        compile_rescues more jumps.0 (exits ++ jumps.1 ∷ [])

    pub compile_stmt : Stmt D → Compile D (Unit {0})
    compile_stmt (Stmt.let_decl name t value s) = compile_expr value >> bind_name same_decimal name
    compile_stmt (Stmt.shared_decl name t value s) =
        compile_expr value >> emit_op shared_expr_op >> bind_name same_decimal name
    compile_stmt (Stmt.state_decl name t value s) = pure tt
    compile_stmt (Stmt.on_clause name params t body s) = pure tt
    compile_stmt (Stmt.func_def name params t body s) =
        function_def same_decimal name (param_names params) (compile_expr body)
    compile_stmt (Stmt.type_def d) = type_def d.name
    compile_stmt (Stmt.enum_def d) = enum_def same_decimal d.variants
    compile_stmt (Stmt.actor_def name body s) =
        define_actor same_decimal name (compile_actor_body body)
    compile_stmt (Stmt.import i) = import_module same_decimal i
    compile_stmt (Stmt.expr e) = compile_expr e >> emit_op pop_op
    compile_stmt (Stmt.semi e) = compile_expr e >> emit_op pop_op

    pub compile_stmts : Stmts D → Compile D (Unit {0})
    compile_stmts no_stmts = pure tt
    compile_stmts (stmt_and s ss) = compile_stmt s >> compile_stmts ss

    -- A statement of an actor's body.
    pub compile_member : Stmt D → Compile D (Unit {0})
    compile_member (Stmt.state_decl name t value s) =
        compile_expr value >> named same_decimal define_global_op name
    compile_member (Stmt.func_def name params t body s) =
        actor_member same_decimal define_global_op name (param_names params) (compile_expr body)
    compile_member (Stmt.on_clause name params t body s) =
        actor_member same_decimal register_handler_op name (param_names params) (compile_expr body)
    compile_member _ = pure tt

    pub compile_actor_body : Stmts D → Compile D (Unit {0})
    compile_actor_body no_stmts = pure tt
    compile_actor_body (stmt_and s ss) = compile_member s >> compile_actor_body ss

  -- The last statement of a program leaves its value.
  abbrev pub compile_last : Stmt D → Compile D (Unit {0})
  compile_last (Stmt.expr e) = compile_expr e
  compile_last (Stmt.semi e) = compile_expr e >> emit_op pop_op >> emit_op nil_op
  compile_last other = compile_stmt other >> emit_op nil_op

  unfoldable pub compile_top : List (Stmt D) → Compile D (Unit {0})
  compile_top [] = emit_op nil_op
  compile_top (s ∷ []) = compile_last s
  compile_top (s ∷ t ∷ ss) = compile_stmt s >> compile_top (t ∷ ss)

  -- `compile_program_with_types`, with the tables behind the program.
  unfoldable pub compile_program : Program D → List (Text × ℕ) → List Text → Outcome D (Unit {0})
  compile_program program variants structs =
      (compile_top program.stmts >> emit_op return_op) (new_compiler variants structs)
