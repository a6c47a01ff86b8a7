-- ===== src/Compiler/FormsKept.antt =====
-- src/compiler/mod.rs: the forms of expressions and statements keep the scopes, when the code of their parts does.
use y.Prelude.{
  ℕ, ◌≡◌, refl, if◌then◌else◌, if_both, Text, Bool, true, false, List, [], ◌∷◌, Option, none, some,
}
use y.Ast.Types.{BinOp}
use y.Ast.Tree.{Expr}
use y.Vm.Chunk.{OpCode}
use y.Compiler.State.{UpvalueInfo, Compile}
use y.Compiler.Forms.{
  binary, emit_upvalues, emit_closure, emit_with, store_local, emit_if_some, op_or_panic,
  emit_binop_simple, type_def, append_part, pipe_into,
}
use y.Compiler.Kept.{
  Steady, Steady-step, pure-Steady, panic-Steady, current-Steady, tables-Steady, set_tables-Steady,
}
use y.Compiler.EmitKept.{emit_op-Steady, emit_u8-Steady, emit_u16-Steady, emit_loop-Steady}
use y.Compiler.JumpsKept.{emit_const-Steady, add_pattern-Steady}
use y.Compiler.NamesKept.{emit_load-Steady, emit_load_ref-Steady, emit_store-Steady}

module _ {D : Type 0} where
  pub if-Steady :
      {A : Type 0} (b : Bool) (m n : Compile D A)
      → Steady m
      → Steady n
      → Steady (if b then m else n)
  if-Steady b m n g h = if_both Steady b g h

  pub emit_with-Steady : (op : OpCode) (v : ℕ) → Steady {D = D} (emit_with op v)
  unfolding emit_with
  emit_with-Steady op v = Steady-step _ _ (emit_op-Steady op) (λ u. emit_u8-Steady v)

pub ruleset emits = (
  Steady-step, pure-Steady, emit_op-Steady, emit_u8-Steady, emit_u16-Steady, emit_loop-Steady,
  emit_const-Steady, add_pattern-Steady, current-Steady, tables-Steady, set_tables-Steady,
  emit_load-Steady, emit_load_ref-Steady, emit_store-Steady, if-Steady, emit_with-Steady,
)

module _ {D : Type 0} where
  emit_upvalues-Steady : (uvs : List UpvalueInfo) → Steady {D = D} (emit_upvalues uvs)
  unfolding emit_upvalues
  emit_upvalues-Steady [] = pure-Steady tt
  emit_upvalues-Steady (uv ∷ uvs) =
      Steady-step _ _ (Steady-step _ _ (emit_u8-Steady _) (λ u. emit_u8-Steady _))
        (λ u. emit_upvalues-Steady uvs)

  pub emit_closure-Steady : (f : ℕ × List UpvalueInfo) → Steady {D = D} (emit_closure f)
  unfolding emit_closure
  emit_closure-Steady f = search (emits, emit_upvalues-Steady) depth 20

  pub store_local-Steady : (slot : ℕ) → Steady {D = D} (store_local slot)
  unfolding store_local
  store_local-Steady slot = emit_with-Steady _ _

  pub emit_if_some-Steady : (op : OpCode) (n : ℕ) → Steady {D = D} (emit_if_some op n)
  unfolding emit_if_some
  emit_if_some-Steady op n = search emits depth 20

  op_or_panic-Steady :
      (op : BinOp) (code : Option OpCode) → binary op ≡ code → Steady {D = D} (op_or_panic op code)
  op_or_panic-Steady op none e = panic-Steady _ (λ c. e)
  op_or_panic-Steady op (some code) e = emit_op-Steady code

  pub emit_binop_simple-Steady : (op : BinOp) → Steady {D = D} (emit_binop_simple op)
  unfolding emit_binop_simple
  emit_binop_simple-Steady op = op_or_panic-Steady op (binary op) refl

  pub type_def-Steady : (name : Text) → Steady {D = D} (type_def name)
  unfolding type_def
  type_def-Steady name = search emits depth 20

  pub append_part-Steady : (first : Bool) → Steady {D = D} (append_part first)
  append_part-Steady true = pure-Steady tt
  append_part-Steady false = emit_op-Steady _

  pub pipe_into-Steady :
      (rhs : Expr D) (whole callee args lhs : Compile D (Unit {0}))
      → Steady whole
      → Steady callee
      → Steady args
      → Steady lhs
      → Steady (pipe_into rhs whole callee args lhs)
  pipe_into-Steady (Expr.call f es s) whole callee args lhs w c a l = search emits depth 20
  pipe_into-Steady _ whole callee args lhs w c a l = search emits depth 20
