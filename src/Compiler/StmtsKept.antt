-- ===== src/Compiler/StmtsKept.antt =====
-- src/compiler/mod.rs: bindings and functions add the locals of their names only.
use y.Prelude.{ℕ, Text, Bool, true, false, List, if◌then◌else◌, Option, none, some, arith}
use y.Vm.Chunk.{define_global_op}
use y.Compiler.State.{Compile, ◌>>=◌}
use y.Compiler.Scope.{declare_local}
use y.Compiler.Forms.{store_local, at_top_level, compile_function, emit_closure}
use y.Compiler.Terms.{named, bind_name, declare_inner, store_function, function_def}
use y.Compiler.Kept.{Steady, steadily, Steady-step, pure-Steady, current-Steady}
use y.Compiler.FunctionKept.{compile_function-Steady}
use y.Compiler.FormsKept.{store_local-Steady, emit_closure-Steady}
use y.Compiler.TermsKept.{named-Steady}
use y.Compiler.FlowKept.{Grows, Steady-Grows, declared-Grows, declared_then}

module _ {D : Type 0} (same_decimal : D → D → Bool) where
  bound-Grows :
      (name : Text) (top : Bool)
      → Grows (
          if top
          then named same_decimal define_global_op name
          else (declare_local name >>= store_local))
  bound-Grows name true = Steady-Grows _ (named-Steady same_decimal _ name)
  bound-Grows name false = declared-Grows name

  top_level_then :
      (f : Bool → Compile D (Unit {0})) → ((b : Bool) → Grows (f b)) → Grows (at_top_level >>= f)
  unfolding at_top_level
  top_level_then f h = record {
    runs = λ n len d ls le w.
        steadily n len (d, ls) _ _ f (current-Steady _) le w
          (λ b more l. (h b).runs n more d ls (omega arith) w);
  }

  pub bind_name-Grows : (name : Text) → Grows (bind_name same_decimal name)
  unfolding bind_name
  bind_name-Grows name = top_level_then _ (λ top. bound-Grows name top)

  store_function-Steady :
      (name : Text) (slot : Option ℕ) → Steady (store_function same_decimal name slot)
  store_function-Steady name (some slot) = store_local-Steady slot
  store_function-Steady name none = named-Steady same_decimal _ name

  function_code-Steady :
      (name : Text) (params : List Text) (body : Compile D (Unit {0})) (slot : Option ℕ)
      → Steady body
      → Steady (
          compile_function (some name) params body >>= emit_closure >>= λ u.
          store_function same_decimal name slot)
  function_code-Steady name params body slot h =
      Steady-step _ _
        (Steady-step _ _ (compile_function-Steady (some name) params body h)
          (λ f. emit_closure-Steady f))
        (λ u. store_function-Steady name slot)

  function_at :
      (name : Text) (params : List Text) (body : Compile D (Unit {0})) (top : Bool)
      → Steady body
      → Grows (
          declare_inner same_decimal name top >>= λ slot.
          compile_function (some name) params body >>= emit_closure >>= λ u.
          store_function same_decimal name slot)
  function_at name params body true h =
      Steady-Grows _
        (Steady-step _ _ (pure-Steady none) (λ slot. function_code-Steady name params body slot h))
  function_at name params body false h =
      declared_then name _ (λ slot. function_code-Steady name params body slot h)

  pub function_def-Grows :
      (name : Text) (params : List Text) (body : Compile D (Unit {0}))
      → Steady body
      → Grows (function_def same_decimal name params body)
  unfolding function_def
  function_def-Grows name params body h =
      top_level_then _ (λ top. function_at name params body top h)
