-- ===== src/Compiler/ForLoop.antt =====
-- src/compiler/mod.rs: what the compiler emits for `for`.
use y.Prelude.{ℕ, Text, codes, Bool, List, [], ◌∷◌, length}
use y.Vm.Chunk.{
  nil_op, load_local_op, load_global_op, pop_op, pop_n_op, add_op, lt_op, jump_op, jump_if_false_op,
  call_op, assign_local_op, push_loop_op, pop_loop_op,
}
use y.Compiler.State.{Const, Compile, ◌>>=◌, ◌>>◌}
use y.Compiler.Emit.{
  emit_op, current_code_len, placeholder, emit_jump, patch_jump, emit_loop, as_byte,
}
use y.Compiler.Scope.{begin_scope, end_scope, pop_local}
use y.Compiler.Forms.{emit_with, emit_if_some}
use y.Compiler.Terms.{named, constant}
use y.Compiler.Flow.{load_locals, new_local}

module _ {D : Type 0} (same_decimal : D → D → Bool) where
  unfoldable pub call_builtin : Text → List ℕ → Compile D (Unit {0})
  call_builtin name slots = do
    named same_decimal load_global_op name
    load_locals slots
    emit_with call_op (as_byte (length slots))

  unfoldable pub for_body : ℕ → ℕ → Text → Compile D (Unit {0}) → Compile D (Unit {0})
  for_body iter_slot i_slot var body = do
    call_builtin (codes "get") (iter_slot ∷ i_slot ∷ [])
    new_local var
    begin_scope
    body
    emit_op pop_op
    inner_n ← end_scope
    emit_if_some pop_n_op inner_n
    emit_with pop_n_op 1
    pop_local

  unfoldable pub increment : ℕ → Compile D (Unit {0})
  increment i_slot = do
    emit_with load_local_op (as_byte i_slot)
    constant same_decimal (Const.int 1)
    emit_op add_op
    emit_with assign_local_op (as_byte i_slot)

  unfoldable pub counted_loop : ℕ → ℕ → ℕ → Text → Compile D (Unit {0}) → Compile D (Unit {0})
  counted_loop iter_slot i_slot n_slot var body = do
    emit_op push_loop_op
    continue_patch ← placeholder
    break_patch ← placeholder
    loop_start ← current_code_len
    load_locals (i_slot ∷ n_slot ∷ [])
    emit_op lt_op
    exit_jump ← emit_jump jump_if_false_op
    for_body iter_slot i_slot var body
    patch_jump continue_patch
    increment i_slot
    emit_loop loop_start
    patch_jump exit_jump
    emit_op pop_loop_op
    emit_op nil_op
    jump_over_break ← emit_jump jump_op
    patch_jump break_patch
    emit_op pop_loop_op
    emit_op pop_op
    emit_op nil_op
    patch_jump jump_over_break

  unfoldable pub for_loop :
      Text → Compile D (Unit {0}) → Compile D (Unit {0}) → Compile D (Unit {0})
  for_loop var iter body = do
    begin_scope
    named same_decimal load_global_op (codes "iter_to_vec")
    iter
    emit_with call_op 1
    iter_slot ← new_local (codes "__for_iter")
    constant same_decimal (Const.int 0)
    i_slot ← new_local (codes "__for_i")
    call_builtin (codes "count") (iter_slot ∷ [])
    n_slot ← new_local (codes "__for_n")
    counted_loop iter_slot i_slot n_slot var body
    outer_n ← end_scope
    emit_if_some pop_n_op outer_n
