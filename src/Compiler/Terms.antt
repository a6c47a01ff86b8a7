-- ===== src/Compiler/Terms.antt =====
-- src/compiler/mod.rs: what the compiler emits with constants: names, bindings, strings, calls and
-- assignments, around the code of their parts.
use y.Prelude.{
  ℕ, zero, suc, if◌then◌else◌, Text, codes, is_empty, Bool, true, false, List, [], ◌∷◌, Option,
  none, some, length,
}
use y.Ast.Types.{BinOp, VariantDef, Import}
use y.Ast.Tree.{Expr, StrLit, no_parts, literal_and}
use y.Vm.Chunk.{
  OpCode, nil_op, const_op, define_global_op, load_global_op, pop_op, call_op, construct_variant_op,
  construct_struct_op, index_assign_op, import_op,
}
use y.Compiler.State.{Const, Compile, ◌>>=◌, ◌>>◌, pure, tables, set_tables}
use y.Compiler.Emit.{emit_op, emit_u8, emit_const, as_byte}
use y.Compiler.Scope.{declare_local, emit_load, emit_load_ref, emit_store}
use y.Compiler.Forms.{
  append_part, at_top_level, compile_function, count_exprs, emit_binop_simple, emit_closure,
  emit_with, flag, get_variant, has_struct, store_local,
}

module _ {D : Type 0} (same_decimal : D → D → Bool) where
  unfoldable pub add_to_pool : Const D → Compile D ℕ
  add_to_pool = emit_const same_decimal

  unfoldable pub constant : Const D → Compile D (Unit {0})
  constant v = add_to_pool v >>= emit_with const_op

  -- The constant of a name stands behind the instruction.
  unfoldable pub named : OpCode → Text → Compile D (Unit {0})
  named op name = add_to_pool (Const.str name) >>= emit_with op

  unfoldable pub named_counted : OpCode → Text → ℕ → Compile D (Unit {0})
  named_counted op name n = named op name >> emit_u8 (as_byte n)

  -- The end of `let` and of `shared`.
  unfoldable pub bind_name : Text → Compile D (Unit {0})
  bind_name name = do
    top ← at_top_level
    if top then named define_global_op name else (declare_local name >>= store_local)

  abbrev pub declare_inner : Text → Bool → Compile D (Option ℕ)
  declare_inner name true = pure none
  declare_inner name false = declare_local name >>= λ slot. pure (some slot)

  abbrev pub store_function : Text → Option ℕ → Compile D (Unit {0})
  store_function name (some slot) = store_local slot
  store_function name none = named define_global_op name

  unfoldable pub function_def : Text → List Text → Compile D (Unit {0}) → Compile D (Unit {0})
  function_def name params body = do
    top ← at_top_level
    slot ← declare_inner name top
    compile_function (some name) params body >>= emit_closure
    store_function name slot

  abbrev pub bind_variant : Text → ℕ → Compile D (Unit {0})
  bind_variant name zero = do
    name_idx ← add_to_pool (Const.str name)
    val_idx ← add_to_pool (Const.variant name)
    emit_with const_op val_idx
    emit_with define_global_op name_idx
  bind_variant name (suc n) = pure tt

  unfoldable pub enum_def : List VariantDef → Compile D (Unit {0})
  enum_def [] = pure tt
  enum_def (v ∷ vs) = do
    variants ← tables (λ c. c.variants)
    structs ← tables (λ c. c.structs)
    set_tables ((v.name, length v.fields) ∷ variants) structs
    bind_variant v.name (length v.fields)
    enum_def vs

  abbrev pub alias_const : Option Text → Compile D ℕ
  alias_const (some alias) = add_to_pool (Const.str alias)
  alias_const none = pure 0

  unfoldable pub import_module : Import → Compile D (Unit {0})
  import_module i = do
    path_idx ← add_to_pool (Const.str i.path)
    alias_idx ← alias_const i.alias
    emit_with import_op path_idx
    emit_u8 alias_idx
    emit_u8 (flag i.is_lazy)

  unfoldable pub literal_part : Text → Bool → (Bool → Compile D Bool) → Compile D Bool
  literal_part s first rest =
      if is_empty s then rest first else (constant (Const.str s) >> append_part first >> rest false)

  unfoldable pub expr_part : Compile D (Unit {0}) → Bool → (Bool → Compile D Bool) → Compile D Bool
  expr_part value first rest = do
    named load_global_op (codes "to_str")
    value
    emit_with call_op 1
    append_part first
    rest false

  abbrev pub empty_string : Bool → Compile D (Unit {0})
  empty_string true = constant (Const.str [])
  empty_string false = pure tt

  -- A string, with the code of its parts.
  abbrev pub string : StrLit D → Compile D Bool → Compile D (Unit {0})
  string (literal_and s no_parts) parts = constant (Const.str s)
  string _ parts = parts >>= empty_string

  -- A key that is a name stands for the name itself.
  abbrev pub map_key : Expr D → Compile D (Unit {0}) → Compile D (Unit {0})
  map_key (Expr.ident name s) whole = constant (Const.str name)
  map_key _ whole = whole

  abbrev pub compile_call_arg : Expr D → Compile D (Unit {0}) → Compile D (Unit {0})
  compile_call_arg (Expr.ident name s) whole = emit_load_ref same_decimal name
  compile_call_arg _ whole = whole

  abbrev pub construct : OpCode → Text → ℕ → Compile D (Unit {0}) → Compile D (Unit {0})
  construct op name n args = args >> named_counted op name n

  -- A variant with arguments, a struct, or else a function.
  abbrev pub call_named :
      Text
      → ℕ
      → Compile D (Unit {0})
      → Compile D (Unit {0})
      → Option ℕ
      → Bool
      → Compile D (Unit {0})
  call_named name n args otherwise (some (suc arity)) is_struct =
      construct construct_variant_op name n args
  call_named name n args otherwise _ true = construct construct_struct_op name n args
  call_named name n args otherwise _ false = otherwise

  unfoldable pub call_name :
      Text → ℕ → Compile D (Unit {0}) → Compile D (Unit {0}) → Compile D (Unit {0})
  call_name name n args otherwise = do
    variants ← tables (λ c. c.variants)
    structs ← tables (λ c. c.structs)
    call_named name n args otherwise (get_variant name variants) (has_struct name structs)

  -- A call, with the code of its arguments as values, and of the call of a function.
  abbrev pub call : Expr D → ℕ → Compile D (Unit {0}) → Compile D (Unit {0}) → Compile D (Unit {0})
  call (Expr.ident name s) n args otherwise = call_name name n args otherwise
  call _ n args otherwise = otherwise

  -- `compile_message`, with the code of the whole and of the arguments of a call.
  abbrev pub compile_message :
      Expr D → Compile D (Unit {0}) → Compile D (Unit {0}) → Compile D (Unit {0})
  compile_message (Expr.ident name s) whole args = named_counted construct_variant_op name 0
  compile_message (Expr.call (Expr.ident name s) es t) whole args =
      construct construct_variant_op name (count_exprs es) args
  compile_message _ whole args = whole

  abbrev pub store_back : Expr D → Compile D (Unit {0})
  store_back (Expr.ident name s) = emit_store same_decimal name
  store_back _ = emit_op pop_op

  unfoldable pub assign_index :
      Expr D
      → Compile D (Unit {0})
      → Compile D (Unit {0})
      → Compile D (Unit {0})
      → Compile D (Unit {0})
  assign_index obj value obj_code index_code = do
    value
    obj_code
    index_code
    emit_op index_assign_op
    store_back obj
    emit_op nil_op

  -- `target = value`, with the code of the object and the index of the target.
  abbrev pub compile_assign :
      Expr D
      → Compile D (Unit {0})
      → Compile D (Unit {0})
      → Compile D (Unit {0})
      → Compile D (Unit {0})
  compile_assign (Expr.ident name s) value obj index = do
    value
    emit_store same_decimal name
    emit_op nil_op
  compile_assign (Expr.index o i s) value obj index = assign_index o value obj index
  compile_assign (Expr.field o name s) value obj index =
      assign_index o value obj (constant (Const.str name))
  compile_assign _ value obj index = do value; emit_op pop_op; emit_op nil_op

  abbrev pub compound_assign : Expr D → BinOp → Compile D (Unit {0}) → Compile D (Unit {0})
  compound_assign (Expr.ident name s) op value = do
    emit_load same_decimal name
    value
    emit_binop_simple op
    emit_store same_decimal name
    emit_op nil_op
  compound_assign _ op value = emit_op nil_op
