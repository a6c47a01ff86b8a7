-- ===== src/Compiler/Flow.antt =====
-- src/compiler/mod.rs: what the compiler emits for branches, matches, loops, `try` and actors, around the code of
-- their parts.
use y.Prelude.{ℕ, Text, codes, Bool, true, false, List, [], ◌∷◌, ◌++◌, Option, none, some}
use y.Ast.Types.{BinOp}
use y.Ast.Tree.{Pattern, OptExpr, no_expr, an_expr, RescueClauses, no_rescues, rescue_and}
use y.Vm.Chunk.{
  OpCode, nil_op, load_local_op, pop_op, pop_n_op, pop_local_keep_op, dup_op, jump_op,
  jump_if_false_op, jump_if_true_op, call_op, match_op, break_op, continue_op, raise_op,
  push_try_op, pop_try_op, ensure_exit_op, push_transact_op, transact_commit_op, swap_op,
  push_loop_op, pop_loop_op,
}
use y.Compiler.State.{UpvalueInfo, Compile, ◌>>=◌, ◌>>◌, pure}
use y.Compiler.Emit.{
  emit_op, emit_u16, current_code_len, placeholder, emit_jump, patch_u16, patch_jump, emit_loop,
  add_pattern, as_byte, as_word,
}
use y.Compiler.Scope.{begin_scope, end_scope, declare_local, pop_local}
use y.Compiler.Names.{pattern_binding_names, pattern_binding_count}
use y.Compiler.Forms.{
  declare_all, emit_closure, emit_with, store_local, emit_if_some, emit_binop_simple,
}

abbrev pub has_catch_all : {D : Type 0} → RescueClauses D → Bool
has_catch_all no_rescues = false
has_catch_all (rescue_and none bind body s more) = true
has_catch_all (rescue_and (some type) bind body s more) = has_catch_all more

abbrev pub rescue_params : Option Text → List Text
rescue_params none = []
rescue_params (some name) = name ∷ []

module _ {D : Type 0} where
  unfoldable pub if_else :
      Compile D (Unit {0}) → Compile D (Unit {0}) → Compile D (Unit {0}) → Compile D (Unit {0})
  if_else cond then_code else_code = do
    cond
    else_jump ← emit_jump jump_if_false_op
    then_code
    end_jump ← emit_jump jump_op
    patch_jump else_jump
    else_code
    patch_jump end_jump

  -- `and` and `or`: the left value decides, or is dropped.
  unfoldable pub shortcut :
      OpCode → Compile D (Unit {0}) → Compile D (Unit {0}) → Compile D (Unit {0})
  shortcut jump_when lhs rhs = do
    lhs
    emit_op dup_op
    jump ← emit_jump jump_when
    emit_op pop_op
    rhs
    patch_jump jump

  abbrev pub compile_binop :
      BinOp → Compile D (Unit {0}) → Compile D (Unit {0}) → Compile D (Unit {0})
  compile_binop BinOp.and lhs rhs = shortcut jump_if_false_op lhs rhs
  compile_binop BinOp.or lhs rhs = shortcut jump_if_true_op lhs rhs
  compile_binop op lhs rhs = lhs >> rhs >> emit_binop_simple op

  unfoldable pub block : Compile D (Unit {0}) → Compile D (Unit {0}) → Compile D (Unit {0})
  block stmts tail = do begin_scope; stmts; tail; n ← end_scope; emit_if_some pop_local_keep_op n

  unfoldable pub pop_locals : List Text → Compile D (Unit {0})
  pop_locals [] = pure tt
  pop_locals (n ∷ ns) = pop_local >> pop_locals ns

  -- The body of an arm, and its jump to the end of the match.
  unfoldable pub arm_body : ℕ → Compile D (Unit {0}) → Compile D ℕ
  arm_body n_bindings body = do
    body
    emit_with pop_local_keep_op (as_byte n_bindings)
    emit_jump jump_op

  abbrev pub guarded : ℕ → OptExpr D → Compile D (Unit {0}) → Compile D (Unit {0}) → Compile D ℕ
  guarded n_bindings no_expr guard body = arm_body n_bindings body
  guarded n_bindings (an_expr e) guard body = do
    guard
    guard_fail_jump ← emit_jump jump_if_false_op
    end_jump ← arm_body n_bindings body
    patch_jump guard_fail_jump
    emit_with pop_n_op (as_byte n_bindings)
    pure end_jump

  unfoldable pub match_arm :
      ℕ → Pattern D → OptExpr D → Compile D (Unit {0}) → Compile D (Unit {0}) → Compile D ℕ
  match_arm scrutinee_slot pattern guard guard_code body = do
    emit_with load_local_op (as_byte scrutinee_slot)
    add_pattern pattern >>= emit_with match_op
    match_fail_jump ← emit_jump jump_if_false_op
    declare_all (pattern_binding_names pattern)
    end_jump ← guarded (pattern_binding_count pattern) guard guard_code body
    pop_locals (pattern_binding_names pattern)
    patch_jump match_fail_jump
    pure end_jump

  unfoldable pub patch_all : List ℕ → Compile D (Unit {0})
  patch_all [] = pure tt
  patch_all (j ∷ js) = patch_jump j >> patch_all js

  -- A match, with the code of its arms for the slot of the scrutinee.
  unfoldable pub compile_match :
      Compile D (Unit {0}) → (ℕ → Compile D (List ℕ)) → Compile D (Unit {0})
  compile_match scrutinee arms = do
    scrutinee
    scrutinee_slot ← declare_local (codes "__match_scrutinee")
    store_local scrutinee_slot
    end_jumps ← arms scrutinee_slot
    emit_op nil_op
    patch_all end_jumps
    emit_with pop_local_keep_op 1
    pop_local

  unfoldable pub while_loop : Compile D (Unit {0}) → Compile D (Unit {0}) → Compile D (Unit {0})
  while_loop cond body = do
    emit_op push_loop_op
    continue_patch ← placeholder
    break_patch ← placeholder
    loop_start ← current_code_len
    patch_u16 continue_patch (as_word loop_start)
    cond
    exit_jump ← emit_jump jump_if_false_op
    body
    emit_op pop_op
    emit_loop loop_start
    patch_jump exit_jump
    emit_op pop_loop_op
    emit_op nil_op
    jump_over_break ← emit_jump jump_op
    patch_jump break_patch
    emit_op pop_loop_op
    patch_jump jump_over_break

  unfoldable pub endless_loop : Compile D (Unit {0}) → Compile D (Unit {0})
  endless_loop body = do
    emit_op push_loop_op
    continue_patch ← placeholder
    break_patch ← placeholder
    loop_start ← current_code_len
    patch_u16 continue_patch (as_word loop_start)
    body
    emit_op pop_op
    emit_loop loop_start
    patch_jump break_patch
    emit_op pop_loop_op

  unfoldable pub break_loop : Compile D (Unit {0}) → Compile D (Unit {0})
  break_loop value = do value; emit_op break_op; emit_u16 1; emit_op nil_op

  unfoldable pub continue_loop : Compile D (Unit {0})
  continue_loop = do emit_op continue_op; emit_u16 0; emit_op nil_op

  unfoldable pub transact : Compile D (Unit {0}) → Compile D (Unit {0})
  transact body = do
    transact_start ← current_code_len
    emit_op push_transact_op
    emit_u16 (as_word transact_start)
    body
    emit_op transact_commit_op

  unfoldable pub load_locals : List ℕ → Compile D (Unit {0})
  load_locals [] = pure tt
  load_locals (slot ∷ slots) = emit_with load_local_op (as_byte slot) >> load_locals slots

  -- A local, for the value on the stack.
  unfoldable pub new_local : Text → Compile D ℕ
  new_local name = do slot ← declare_local name; store_local slot; pure slot

  abbrev pub patch_some : Option ℕ → Compile D (Unit {0})
  patch_some none = pure tt
  patch_some (some j) = patch_jump j

  -- The closure of the clause is called with the exception, or without.
  abbrev pub rescue_call : Option Text → ℕ × List UpvalueInfo → Compile D (Unit {0})
  rescue_call (some name) f = do emit_closure f; emit_op swap_op; emit_with call_op 1
  rescue_call none f = do emit_op pop_op; emit_closure f; emit_with call_op 0

  -- Behind the clauses, when none catches all: the jumps behind the handlers.
  abbrev pub uncaught : Bool → OptExpr D → List ℕ → Compile D (List ℕ)
  uncaught true ensure exits = pure exits
  uncaught false no_expr exits = do emit_op raise_op; pure exits
  uncaught false (an_expr e) exits = do
    emit_op pop_op
    j ← emit_jump jump_op
    pure (exits ++ j ∷ [])

  abbrev pub ensured : OptExpr D → ℕ → ℕ → Compile D (Unit {0}) → Compile D (Unit {0})
  ensured no_expr ensure_patch ens_addr ensure_code = pure tt
  ensured (an_expr e) ensure_patch ens_addr ensure_code = do
    patch_u16 ensure_patch ens_addr
    ensure_code
    emit_op pop_op
    emit_op ensure_exit_op

  -- `try`, with the code of the clauses, which answers their jumps.
  unfoldable pub compile_try :
      Bool
      → OptExpr D
      → Compile D (Unit {0})
      → Compile D (Option ℕ × List ℕ)
      → Compile D (Unit {0})
      → Compile D (Unit {0})
  compile_try catch_all ensure body rescues ensure_code = do
    emit_op push_try_op
    rescue_patch ← placeholder
    ensure_patch ← placeholder
    body
    emit_op pop_try_op
    jump_over_rescue ← emit_jump jump_op
    patch_jump rescue_patch
    clauses ← rescues
    patch_some clauses.0
    exits ← uncaught catch_all ensure clauses.1
    ens_addr ← current_code_len
    patch_jump jump_over_rescue
    patch_all exits
    ensured ensure ensure_patch (as_word ens_addr) ensure_code
