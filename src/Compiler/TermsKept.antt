-- ===== src/Compiler/TermsKept.antt =====
-- src/compiler/mod.rs: strings, calls and assignments keep the scopes, when the code of their parts does.
use y.Prelude.{ℕ, zero, suc, Text, Bool, true, false, List, [], ◌∷◌, Option, none, some}
use y.Ast.Types.{BinOp, VariantDef, Import}
use y.Ast.Tree.{Expr, StrLit, no_parts, literal_and}
use y.Vm.Chunk.{OpCode}
use y.Compiler.State.{Const, Compile, ◌>>=◌}
use y.Compiler.Terms.{
  add_to_pool, constant, named, named_counted, bind_variant, enum_def, alias_const, import_module,
  literal_part, expr_part, empty_string, string, map_key, compile_call_arg, construct, call_named,
  call_name, call, compile_message, store_back, assign_index, compile_assign, compound_assign,
}
use y.Compiler.Kept.{Steady, Steady-step, pure-Steady, tables-Steady, set_tables-Steady}
use y.Compiler.EmitKept.{emit_op-Steady, emit_u8-Steady}
use y.Compiler.JumpsKept.{emit_const-Steady}
use y.Compiler.NamesKept.{emit_load_ref-Steady, emit_store-Steady}
use y.Compiler.FormsKept.{append_part-Steady, emit_binop_simple-Steady, emit_with-Steady, emits}

module _ {D : Type 0} (same_decimal : D → D → Bool) where
  pub add_to_pool-Steady : (v : Const D) → Steady (add_to_pool same_decimal v)
  unfolding add_to_pool
  add_to_pool-Steady v = emit_const-Steady same_decimal v

  pub constant-Steady : (v : Const D) → Steady (constant same_decimal v)
  unfolding constant
  constant-Steady v = Steady-step _ _ (add_to_pool-Steady v) (λ i. emit_with-Steady _ i)

  pub named-Steady : (op : OpCode) (name : Text) → Steady (named same_decimal op name)
  unfolding named
  named-Steady op name = Steady-step _ _ (add_to_pool-Steady _) (λ i. emit_with-Steady op i)

  pub named_counted-Steady :
      (op : OpCode) (name : Text) (n : ℕ) → Steady (named_counted same_decimal op name n)
  unfolding named_counted
  named_counted-Steady op name n = Steady-step _ _ (named-Steady op name) (λ u. emit_u8-Steady _)

  bind_variant-Steady : (name : Text) (n : ℕ) → Steady (bind_variant same_decimal name n)
  bind_variant-Steady name zero = search (emits, add_to_pool-Steady) depth 20
  bind_variant-Steady name (suc n) = pure-Steady tt

  pub enum_def-Steady : (vs : List VariantDef) → Steady (enum_def same_decimal vs)
  unfolding enum_def
  enum_def-Steady [] = pure-Steady tt
  enum_def-Steady (v ∷ vs) = Steady-step _ _ (tables-Steady _) (λ variants.
      Steady-step _ _ (tables-Steady _) (λ structs.
        Steady-step _ _ (set_tables-Steady _ _)
          (λ u. Steady-step _ _ (bind_variant-Steady v.name _) (λ u. enum_def-Steady vs))))

  alias_const-Steady : (alias : Option Text) → Steady (alias_const same_decimal alias)
  alias_const-Steady none = pure-Steady 0
  alias_const-Steady (some a) = add_to_pool-Steady _

  pub import_module-Steady : (i : Import) → Steady (import_module same_decimal i)
  unfolding import_module
  import_module-Steady i = search (emits, add_to_pool-Steady, alias_const-Steady) depth 20

  pub literal_part-Steady :
      (s : Text) (first : Bool) (rest : Bool → Compile D Bool)
      → ((b : Bool) → Steady (rest b))
      → Steady (literal_part same_decimal s first rest)
  unfolding literal_part
  literal_part-Steady s first rest h = search (emits, constant-Steady, append_part-Steady) depth 20

  pub expr_part-Steady :
      (value : Compile D (Unit {0})) (first : Bool) (rest : Bool → Compile D Bool)
      → Steady value
      → ((b : Bool) → Steady (rest b))
      → Steady (expr_part same_decimal value first rest)
  unfolding expr_part
  expr_part-Steady value first rest v h = search (emits, named-Steady, append_part-Steady) depth 20

  empty_string-Steady : (first : Bool) → Steady (empty_string same_decimal first)
  empty_string-Steady true = constant-Steady _
  empty_string-Steady false = pure-Steady tt

  parts-Steady :
      (parts : Compile D Bool) → Steady parts → Steady (parts >>= empty_string same_decimal)
  parts-Steady parts h = Steady-step _ _ h empty_string-Steady

  pub string-Steady :
      (lit : StrLit D) (parts : Compile D Bool)
      → Steady parts
      → Steady (string same_decimal lit parts)
  string-Steady (literal_and s no_parts) parts h = constant-Steady _
  string-Steady _ parts h = parts-Steady parts h

  pub map_key-Steady :
      (k : Expr D) (whole : Compile D (Unit {0}))
      → Steady whole
      → Steady (map_key same_decimal k whole)
  map_key-Steady (Expr.ident name s) whole h = constant-Steady _
  map_key-Steady _ whole h = h

  pub compile_call_arg-Steady :
      (e : Expr D) (whole : Compile D (Unit {0}))
      → Steady whole
      → Steady (compile_call_arg same_decimal e whole)
  compile_call_arg-Steady (Expr.ident name s) whole h = emit_load_ref-Steady same_decimal name
  compile_call_arg-Steady _ whole h = h

  construct-Steady :
      (op : OpCode) (name : Text) (n : ℕ) (args : Compile D (Unit {0}))
      → Steady args
      → Steady (construct same_decimal op name n args)
  construct-Steady op name n args h = Steady-step _ _ h (λ u. named_counted-Steady op name n)

  call_named-Steady :
      (name : Text) (n : ℕ) (args otherwise : Compile D (Unit {0})) (arity : Option ℕ)
      (is_struct : Bool)
      → Steady args
      → Steady otherwise
      → Steady (call_named same_decimal name n args otherwise arity is_struct)
  call_named-Steady name n args otherwise (some (suc arity)) s h k =
      construct-Steady _ name n args h
  call_named-Steady name n args otherwise (some zero) true h k = construct-Steady _ name n args h
  call_named-Steady name n args otherwise (some zero) false h k = k
  call_named-Steady name n args otherwise none true h k = construct-Steady _ name n args h
  call_named-Steady name n args otherwise none false h k = k

  call_name-Steady :
      (name : Text) (n : ℕ) (args otherwise : Compile D (Unit {0}))
      → Steady args
      → Steady otherwise
      → Steady (call_name same_decimal name n args otherwise)
  unfolding call_name
  call_name-Steady name n args otherwise h k = search (emits, call_named-Steady) depth 20

  pub call-Steady :
      (callee : Expr D) (n : ℕ) (args otherwise : Compile D (Unit {0}))
      → Steady args
      → Steady otherwise
      → Steady (call same_decimal callee n args otherwise)
  call-Steady (Expr.ident name s) n args otherwise h k = call_name-Steady name n args otherwise h k
  call-Steady _ n args otherwise h k = k

  pub compile_message-Steady :
      (msg : Expr D) (whole args : Compile D (Unit {0}))
      → Steady whole
      → Steady args
      → Steady (compile_message same_decimal msg whole args)
  compile_message-Steady (Expr.ident name s) whole args h k = named_counted-Steady _ name 0
  compile_message-Steady (Expr.call (Expr.ident name s) es t) whole args h k =
      construct-Steady _ name _ args k
  compile_message-Steady _ whole args h k = h

  store_back-Steady : (obj : Expr D) → Steady (store_back same_decimal obj)
  store_back-Steady (Expr.ident name s) = emit_store-Steady same_decimal name
  store_back-Steady _ = emit_op-Steady _

  assign_index-Steady :
      (obj : Expr D) (value obj_code index : Compile D (Unit {0}))
      → Steady value
      → Steady obj_code
      → Steady index
      → Steady (assign_index same_decimal obj value obj_code index)
  unfolding assign_index
  assign_index-Steady obj value obj_code index v o i = search (emits, store_back-Steady) depth 20

  pub compile_assign-Steady :
      (target : Expr D) (value obj index : Compile D (Unit {0}))
      → Steady value
      → Steady obj
      → Steady index
      → Steady (compile_assign same_decimal target value obj index)
  compile_assign-Steady (Expr.ident name s) value obj index v o i = search emits depth 20
  compile_assign-Steady (Expr.index t j s) value obj index v o i =
      assign_index-Steady t value obj index v o i
  compile_assign-Steady (Expr.field t name s) value obj index v o i =
      assign_index-Steady t value obj _ v o (constant-Steady _)
  compile_assign-Steady _ value obj index v o i = search emits depth 20

  pub compound_assign-Steady :
      (target : Expr D) (op : BinOp) (value : Compile D (Unit {0}))
      → Steady value
      → Steady (compound_assign same_decimal target op value)
  compound_assign-Steady (Expr.ident name s) op value h =
      search (emits, emit_binop_simple-Steady) depth 20
  compound_assign-Steady _ op value h = emit_op-Steady _
