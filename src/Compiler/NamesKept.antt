-- ===== src/Compiler/NamesKept.antt =====
-- src/compiler/mod.rs: the code that loads and stores a name keeps the scopes.
use y.Prelude.{ℕ, Text, Bool, Option, none, some}
use y.Vm.Chunk.{OpCode}
use y.Compiler.Scope.{
  upvalue_or_global, local_or_upvalue, emit_access, emit_load, emit_load_ref, emit_store,
}
use y.Compiler.Kept.{Steady, Steady-step}
use y.Compiler.EmitKept.{emit_op-Steady, emit_u8-Steady}
use y.Compiler.JumpsKept.{emit_const-Steady}
use y.Compiler.ScopeKept.{local, resolve_local-Steady, resolve_upvalue-Steady}

module _ {D : Type 0} (same_decimal : D → D → Bool) where
  upvalue_or_global-Steady :
      (upvalue global : OpCode) (name : Text) (found : Option ℕ)
      → Steady (upvalue_or_global same_decimal upvalue global name found)
  upvalue_or_global-Steady upvalue global name (some idx) =
      Steady-step _ _ (emit_op-Steady _) (λ u. emit_u8-Steady _)
  upvalue_or_global-Steady upvalue global name none =
      Steady-step _ _ (emit_const-Steady same_decimal _)
        (λ idx. Steady-step _ _ (emit_op-Steady _) (λ u. emit_u8-Steady _))

  local_or_upvalue-Steady :
      (local upvalue global : OpCode) (name : Text) (found : Option ℕ)
      → Steady (local_or_upvalue same_decimal local upvalue global name found)
  local_or_upvalue-Steady local upvalue global name (some slot) =
      Steady-step _ _ (emit_op-Steady _) (λ u. emit_u8-Steady _)
  local_or_upvalue-Steady local upvalue global name none =
      Steady-step _ _ (resolve_upvalue-Steady name)
        (λ found. upvalue_or_global-Steady upvalue global name found)

  emit_access-Steady :
      (local upvalue global : OpCode) (name : Text)
      → Steady (emit_access same_decimal local upvalue global name)
  unfolding emit_access
  emit_access-Steady local upvalue global name =
      Steady-step _ _ (resolve_local-Steady name)
        (λ found. local_or_upvalue-Steady local upvalue global name found)

  pub emit_load-Steady : (name : Text) → Steady (emit_load same_decimal name)
  unfolding emit_load
  emit_load-Steady name = emit_access-Steady _ _ _ name

  pub emit_load_ref-Steady : (name : Text) → Steady (emit_load_ref same_decimal name)
  unfolding emit_load_ref
  emit_load_ref-Steady name = emit_access-Steady _ _ _ name

  pub emit_store-Steady : (name : Text) → Steady (emit_store same_decimal name)
  unfolding emit_store
  emit_store-Steady name = emit_access-Steady _ _ _ name
