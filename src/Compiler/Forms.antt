-- ===== src/Compiler/Forms.antt =====
-- src/compiler/mod.rs: what the compiler emits for functions, names, strings, calls and assignments, around the
-- code of their parts (`Compile D (Unit {0})`, or an action that is written out).
use y.Prelude.{
  ℕ, suc, ◌+◌, ◌==◌, ltb, ◌&&◌, if◌then◌else◌, Text, same_text, Bool, true, false, List, [], ◌∷◌,
  Option, none, some, length,
}
use y.Ast.Types.{BinOp, UnaryOp}
use y.Ast.Tree.{Expr, Exprs, no_exprs, expr_and, Entries, no_entries, entry_and}
use y.Vm.Chunk.{
  OpCode, store_local_op, add_op, sub_op, mul_op, div_op, mod_op, neg_op, not_op, eq_op, neq_op,
  lt_op, gt_op, lte_op, gte_op, closure_op, call_op, return_op,
}
use y.Compiler.State.{
  FunctionType, script, function, UpvalueInfo, FuncCtx, new_ctx, chunk_of, chunk_after,
  count_chunks, no_function, short_circuit, done, panicked, Compile, ◌>>=◌, ◌>>◌, pure, panic,
  current, update, tables, set_tables,
}
use y.Compiler.Emit.{emit_op, emit_u8, as_byte}
use y.Compiler.Scope.{declare_local}

abbrev pub count_exprs : {D : Type 0} → Exprs D → ℕ
count_exprs no_exprs = 0
count_exprs (expr_and e es) = suc (count_exprs es)

abbrev pub count_entries : {D : Type 0} → Entries D → ℕ
count_entries no_entries = 0
count_entries (entry_and k v es) = suc (count_entries es)

-- A table's `get`; an entry that is inserted later stands before those of its name.
abbrev pub get_variant : Text → List (Text × ℕ) → Option ℕ
get_variant name [] = none
get_variant name ((n, arity) ∷ more) =
    if same_text n name then some arity else get_variant name more

abbrev pub has_struct : Text → List Text → Bool
has_struct name [] = false
has_struct name (n ∷ more) = if same_text n name then true else has_struct name more

abbrev pub flag : Bool → ℕ
flag true = 1
flag false = 0

-- `fn` at the top level, and elsewhere.
abbrev pub is_script : FunctionType → Bool
is_script script = true
is_script function = false

abbrev pub binary : BinOp → Option OpCode
binary BinOp.add = some add_op
binary BinOp.sub = some sub_op
binary BinOp.mul = some mul_op
binary BinOp.div = some div_op
binary BinOp.rem = some mod_op
binary BinOp.eq = some eq_op
binary BinOp.neq = some neq_op
binary BinOp.lt = some lt_op
binary BinOp.gt = some gt_op
binary BinOp.lte = some lte_op
binary BinOp.gte = some gte_op
binary BinOp.and = none
binary BinOp.or = none

abbrev pub unary : UnaryOp → OpCode
unary UnaryOp.neg = neg_op
unary UnaryOp.not = not_op

module _ {D : Type 0} where
  unfoldable pub push_function : Option Text → Compile D (Unit {0})
  push_function name c =
      done tt (record c { current = new_ctx function name; enclosing = c.current ∷ c.enclosing })

  abbrev pub popped : FuncCtx D → List (FuncCtx D) → Compile D (ℕ × List UpvalueInfo)
  popped f [] c = panicked no_function c
  popped f (parent ∷ rest) c =
      done (count_chunks parent.sub_chunks, f.upvalues)
        (record c {
          current = record parent { sub_chunks = chunk_after parent.sub_chunks (chunk_of f) };
          enclosing = rest;
        })

  -- The function that is ended becomes a sub-chunk of the one around it.
  unfoldable pub pop_function : Compile D (ℕ × List UpvalueInfo)
  pop_function c = popped c.current c.enclosing c

  unfoldable pub declare_all : List Text → Compile D (Unit {0})
  declare_all [] = pure tt
  declare_all (n ∷ ns) = declare_local n >> declare_all ns

  unfoldable pub set_arity : ℕ → Compile D (Unit {0})
  set_arity n = update (λ f. record f { arity = n })

  unfoldable pub function_body : List Text → Compile D (Unit {0}) → Compile D (Unit {0})
  function_body params body = do
    declare_all params
    set_arity (length params)
    body
    emit_op return_op

  -- `compile_function`, with the code of its body.
  unfoldable pub compile_function :
      Option Text → List Text → Compile D (Unit {0}) → Compile D (ℕ × List UpvalueInfo)
  compile_function name params body = do push_function name; function_body params body; pop_function

  unfoldable pub emit_upvalues : List UpvalueInfo → Compile D (Unit {0})
  emit_upvalues [] = pure tt
  emit_upvalues (uv ∷ uvs) =
      emit_u8 (flag uv.is_local) >> emit_u8 (as_byte uv.index) >> emit_upvalues uvs

  unfoldable pub emit_closure : ℕ × List UpvalueInfo → Compile D (Unit {0})
  emit_closure f = do emit_op closure_op; emit_u8 (as_byte f.0); emit_upvalues f.1

  -- An instruction with one operand.
  unfoldable pub emit_with : OpCode → ℕ → Compile D (Unit {0})
  emit_with op operand = emit_op op >> emit_u8 operand

  unfoldable pub store_local : ℕ → Compile D (Unit {0})
  store_local slot = emit_with store_local_op (as_byte slot)

  unfoldable pub emit_if_some : OpCode → ℕ → Compile D (Unit {0})
  emit_if_some op n = if ltb 0 n then emit_with op (as_byte n) else pure tt

  unfoldable pub at_top_level : Compile D Bool
  at_top_level = current (λ f. is_script f.function_type && f.scope_depth == 0)

  abbrev pub op_or_panic : BinOp → Option OpCode → Compile D (Unit {0})
  op_or_panic op none = panic (short_circuit op)
  op_or_panic op (some code) = emit_op code

  unfoldable pub emit_binop_simple : BinOp → Compile D (Unit {0})
  emit_binop_simple op = op_or_panic op (binary op)

  unfoldable pub type_def : Text → Compile D (Unit {0})
  type_def name = do
    variants ← tables (λ c. c.variants)
    structs ← tables (λ c. c.structs)
    set_tables variants (name ∷ structs)

  -- A part behind the first is appended.
  abbrev pub append_part : Bool → Compile D (Unit {0})
  append_part true = pure tt
  append_part false = emit_op add_op

  -- `lhs |> rhs`, with the code of the right side and, when it is a call, of its parts.
  abbrev pub pipe_into :
      Expr D
      → Compile D (Unit {0})
      → Compile D (Unit {0})
      → Compile D (Unit {0})
      → Compile D (Unit {0})
      → Compile D (Unit {0})
  pipe_into (Expr.call callee args s) whole callee_code args_code lhs = do
    callee_code
    lhs
    args_code
    emit_with call_op (as_byte (count_exprs args + 1))
  pipe_into _ whole callee_code args_code lhs = do whole; lhs; emit_with call_op 1
