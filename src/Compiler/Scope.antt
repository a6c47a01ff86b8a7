-- ===== src/Compiler/Scope.antt =====
-- src/compiler/mod.rs: scopes, locals, and the resolution of names to slots and upvalues.
use y.Prelude.{
  ℕ, zero, suc, ◌+◌, ◌==◌, leb, ◌&&◌, if◌then◌else◌, Text, same_text, Bool, true, false, List, [],
  ◌∷◌, ◌++◌, Option, none, some, length,
}
use y.Vm.Chunk.{
  OpCode, load_local_op, load_upvalue_op, load_global_op, load_local_ref_op, load_upvalue_ref_op,
  load_global_ref_op, assign_local_op, assign_upvalue_op, assign_global_op,
}
use y.Compiler.State.{
  Const, Local, UpvalueInfo, FuncCtx, no_scope, done, Compile, ◌>>=◌, ◌>>◌, pure, panic, current,
  update,
}
use y.Compiler.Emit.{emit_op, emit_u8, emit_const, as_byte}

-- The locals whose depth is the given one, from the latest on, and those behind them.
abbrev pub pop_scope : ℕ → List Local → ℕ × List Local
pop_scope depth [] = (0, [])
pop_scope depth (l ∷ ls) =
    let rest = pop_scope depth ls in if l.depth == depth then (suc rest.0, rest.1) else (0, l ∷ ls)

unfoldable pub find_local : Text → ℕ → List Local → Option ℕ
find_local name depth [] = none
find_local name depth (l ∷ ls) =
    if same_text l.name name && leb l.depth depth
    then some (length ls)
    else find_local name depth ls

unfoldable pub mark_captured : ℕ → List Local → List Local
mark_captured slot [] = []
mark_captured slot (l ∷ ls) =
    if length ls == slot then record l { is_captured = true } ∷ ls else l ∷ mark_captured slot ls

abbrev pub same_bool : Bool → Bool → Bool
same_bool true b = b
same_bool false true = false
same_bool false false = true

-- The number of an upvalue, counted from `i`.
unfoldable pub find_upvalue : Bool → ℕ → ℕ → List UpvalueInfo → Option ℕ
find_upvalue is_local index i [] = none
find_upvalue is_local index i (uv ∷ uvs) =
    if same_bool uv.is_local is_local && uv.index == index
    then some i
    else find_upvalue is_local index (suc i) uvs

abbrev pub without_last : List Local → List Local
without_last [] = []
without_last (l ∷ ls) = ls

-- What a resolution answers, with the function and those around it.
pub record Resolved (D : Type 0) : Type 0 where
  pub found : Option ℕ
  pub inner : FuncCtx D
  pub outer : List (FuncCtx D)

module _ {D : Type 0} where
  unfoldable pub begin_scope : Compile D (Unit {0})
  begin_scope = update (λ f. record f { scope_depth = suc f.scope_depth })

  abbrev pub leave_scope : ℕ → Compile D ℕ
  leave_scope zero = panic no_scope
  leave_scope (suc outer) = do
    n ← current (λ f. (pop_scope f.scope_depth f.locals).0)
    update (λ f. record f { locals = (pop_scope f.scope_depth f.locals).1; scope_depth = outer })
    pure n

  -- The number of locals popped.
  unfoldable pub end_scope : Compile D ℕ
  end_scope = do depth ← current (λ f. f.scope_depth); leave_scope depth

  unfoldable pub declare_local : Text → Compile D ℕ
  declare_local name = do
    slot ← current (λ f. length f.locals)
    update (λ f. record f {
      locals = record { name = name; depth = f.scope_depth; is_captured = false } ∷ f.locals;
    })
    pure slot

  unfoldable pub pop_local : Compile D (Unit {0})
  pop_local = update (λ f. record f { locals = without_last f.locals })

  unfoldable pub resolve_local : Text → Compile D (Option ℕ)
  resolve_local name = current (λ f. find_local name f.scope_depth f.locals)

  abbrev pub with_upvalue : Bool → ℕ → FuncCtx D → Option ℕ → ℕ × FuncCtx D
  with_upvalue is_local index f (some i) = (i, f)
  with_upvalue is_local index f none = (
    length f.upvalues,
    record f {
      upvalues = f.upvalues ++ record { is_local = is_local; index = index } ∷ [];
      upvalue_count = f.upvalue_count + 1;
    },
  )

  unfoldable pub add_upvalue : Bool → ℕ → FuncCtx D → ℕ × FuncCtx D
  add_upvalue is_local index f =
      with_upvalue is_local index f (find_upvalue is_local index 0 f.upvalues)

  abbrev pub captured : FuncCtx D → FuncCtx D → List (FuncCtx D) → ℕ → Resolved D
  captured f g gs slot =
      let (i, f') = add_upvalue true slot f in
      record {
        found = some i;
        inner = f';
        outer = record g { locals = mark_captured slot g.locals } ∷ gs;
      }

  abbrev pub passed_on : FuncCtx D → FuncCtx D → List (FuncCtx D) → Option ℕ → Resolved D
  passed_on f g gs none = record { found = none; inner = f; outer = g ∷ gs }
  passed_on f g gs (some uv) =
      let (i, f') = add_upvalue false uv f in record { found = some i; inner = f'; outer = g ∷ gs }

  -- `resolve_upvalue_at` for a function and those around it.
  unfoldable pub resolve_upvalue_at : Text → FuncCtx D → List (FuncCtx D) → Resolved D
  resolve_upvalue_at name f [] = record { found = none; inner = f; outer = [] }
  resolve_upvalue_at name f (g ∷ gs) =
      let r = resolve_upvalue_at name g gs in
      elim (find_local name g.scope_depth g.locals) [
        | none ↦ passed_on f r.inner r.outer r.found
        | some slot ↦ captured f g gs slot
      ]

  unfoldable pub resolve_upvalue : Text → Compile D (Option ℕ)
  resolve_upvalue name c =
      let r = resolve_upvalue_at name c.current c.enclosing in
      done r.found (record c { current = r.inner; enclosing = r.outer })

module _ {D : Type 0} (same_decimal : D → D → Bool) where
  abbrev pub upvalue_or_global : OpCode → OpCode → Text → Option ℕ → Compile D (Unit {0})
  upvalue_or_global upvalue global name (some idx) = do emit_op upvalue; emit_u8 (as_byte idx)
  upvalue_or_global upvalue global name none = do
    idx ← emit_const same_decimal (Const.str name)
    emit_op global
    emit_u8 idx

  abbrev pub local_or_upvalue : OpCode → OpCode → OpCode → Text → Option ℕ → Compile D (Unit {0})
  local_or_upvalue local upvalue global name (some slot) = do emit_op local; emit_u8 (as_byte slot)
  local_or_upvalue local upvalue global name none = do
    found ← resolve_upvalue name
    upvalue_or_global upvalue global name found

  -- The instruction for a local, an upvalue or a global.
  unfoldable pub emit_access : OpCode → OpCode → OpCode → Text → Compile D (Unit {0})
  emit_access local upvalue global name = do
    found ← resolve_local name
    local_or_upvalue local upvalue global name found

  unfoldable pub emit_load : Text → Compile D (Unit {0})
  emit_load = emit_access load_local_op load_upvalue_op load_global_op

  unfoldable pub emit_load_ref : Text → Compile D (Unit {0})
  emit_load_ref = emit_access load_local_ref_op load_upvalue_ref_op load_global_ref_op

  unfoldable pub emit_store : Text → Compile D (Unit {0})
  emit_store = emit_access assign_local_op assign_upvalue_op assign_global_op
