-- ===== src/Compiler/Rescue.antt =====
-- src/compiler/mod.rs: what the compiler emits for rescue clauses and actors, around the code of their
-- parts.
use y.Prelude.{ℕ, Text, codes, Bool, List, [], Option, none, some}
use y.Vm.Chunk.{
  OpCode, nil_op, jump_op, jump_if_false_op, rescue_match_op, clear_pending_op, define_actor_op,
}
use y.Compiler.State.{Const, Compile, ◌>>=◌, ◌>>◌, pure}
use y.Compiler.Emit.{emit_op, emit_u8, emit_jump, as_byte}
use y.Compiler.Forms.{compile_function, emit_closure, emit_with}
use y.Compiler.Terms.{named, add_to_pool}
use y.Compiler.Flow.{patch_some, rescue_call, rescue_params}

module _ {D : Type 0} (same_decimal : D → D → Bool) where
  -- The test of a rescue clause with a type: where it jumps when it fails.
  abbrev pub rescue_test : Option Text → Compile D (Option ℕ)
  rescue_test none = pure none
  rescue_test (some type) = do
    add_to_pool same_decimal (Const.str type) >>= emit_with rescue_match_op
    jump ← emit_jump jump_if_false_op
    pure (some jump)

  -- A clause: the jump for the next one, and the jump behind all of them.
  unfoldable pub rescue_clause :
      Option ℕ → Option Text → Option Text → Compile D (Unit {0}) → Compile D (Option ℕ × ℕ)
  rescue_clause next_clause_jump type bind body = do
    patch_some next_clause_jump
    next ← rescue_test type
    emit_op clear_pending_op
    compile_function (some (codes "<rescue>")) (rescue_params bind) body >>= rescue_call bind
    exit ← emit_jump jump_op
    pure (next, exit)

  -- An actor, with the code of its body.
  unfoldable pub define_actor : Text → Compile D (Unit {0}) → Compile D (Unit {0})
  define_actor name body = do
    init ← compile_function (some name) [] (body >> emit_op nil_op)
    name_idx ← add_to_pool same_decimal (Const.str name)
    emit_with define_actor_op name_idx
    emit_u8 (as_byte init.0)

  unfoldable pub actor_member :
      OpCode → Text → List Text → Compile D (Unit {0}) → Compile D (Unit {0})
  actor_member op name params body =
      (compile_function (some name) params body >>= emit_closure) >> named same_decimal op name
