-- ===== src/Compiler/Ends.antt =====
-- src/compiler/mod.rs: what compile_expr and compile_program leave behind, without the auxiliary judgements.
use y.Prelude.{
  ℕ, suc, ◌≤◌, ◌<◌, ◌≡◌, refl, sym, ap, subst, ◌∙◌, Text, Bool, List, [], ◌∷◌, ◌++◌, map, length,
  length-append, get_elem?, arith,
}
use y.Ast.Tree.{Expr, Stmt}
use y.Vm.Chunk.{as_u8, return_op}
use y.Parser.Run.{Program}
use y.Compiler.State.{Compiler, new_compiler, Outcome, done, panicked, and_then, ◌>>=◌, update}
use y.Compiler.Emit.{emit_op, emit_bytes, dummy}
use y.Compiler.Compile.{compile_expr, compile_last, compile_top, compile_program}
use y.Compiler.Kept.{Scopes, IsScoped, Post, After, To, Any, Steady-step, frame, uncaptured}
use y.Compiler.EmitKept.{emit_op-Steady}
use y.Compiler.FlowKept.{Added, Grows, Steady-Grows, Grows-then}
use y.Compiler.CompileKept.{compile_expr-Steady, compile_stmt-Grows}

length-map : {A B : Type 0} (f : A → B) (xs : List A) → length (map f xs) ≡ length xs
length-map f [] = refl
length-map f (x ∷ xs) = ap suc (length-map f xs)

module _ {D : Type 0} where
  abbrev pub scopes_of : Compiler D → Scopes
  scopes_of c = (c.current.scope_depth, map uncaptured c.current.locals)

  -- Every local stands in an open scope, and every byte has its span.
  abbrev pub IsSound : Compiler D → Type 0
  IsSound c = IsScoped (scopes_of c) × (length c.current.spans ≡ length c.current.code)

  abbrev pub Compiled : Compiler D → Unit {0} → Compiler D → Type 0
  Compiled c u d =
      IsSound d
      × (scopes_of d ≡ scopes_of c)
      × (map frame d.enclosing ≡ map frame c.enclosing)
      × (length c.current.code ≤ length d.current.code)
      × ((i : ℕ)
          → i < length c.current.code
          → get_elem? d.current.code i ≡ get_elem? c.current.code i)

  Compiled-from :
      (c : Compiler D) (o : Outcome D (Unit {0}))
      → IsScoped (scopes_of c)
      → Post (After (length c.current.code) (To (scopes_of c) Any) c) o
      → Post (Compiled c) o
  Compiled-from c (panicked e d) w h = h
  Compiled-from c (done u d) w (kept, (t, at, q)) =
      let same : scopes_of d ≡ scopes_of c = (λ i. (at.0 i, at.1 i)) ∙ sym q.0 in
      ((subst IsScoped (sym same) w, at.2), same, sym kept.0, kept.2.0, kept.2.1)

module _ {D : Type 0} (same_decimal : D → D → Bool) where
  -- From a state in which every local stands in an open scope and every byte has its span, the compiler
  -- of an expression ends, or it panics in a function whose pool of constants or patterns has over 255 entries,
  -- or for a compound assignment with an operator that has no instruction: no scope is missing, no function,
  -- and no patch is out of range. When it ends, the open scopes with their locals and the functions around are
  -- as before, but for the captured locals and the upvalues; the code that was there before is kept, byte by
  -- byte, every local stands in an open scope, and every byte has its span.
  pub compile_expr-Compiled :
      (e : Expr D) (c : Compiler D) → IsSound c → Post (Compiled c) (compile_expr same_decimal e c)
  compile_expr-Compiled e c sound = Compiled-from c (compile_expr same_decimal e c) sound.0 (
      ((compile_expr-Steady same_decimal e).runs (length c.current.code) (length c.current.code)
          (scopes_of c) (omega arith) sound.0).at
        c (refl, refl, sound.1) refl)

  last-Grows : (s : Stmt D) → Grows (compile_last same_decimal s)
  last-Grows (Stmt.expr e) = Steady-Grows _ (compile_expr-Steady same_decimal e)
  last-Grows (Stmt.semi e) = Steady-Grows _ (
      Steady-step _ _ (Steady-step _ _ (compile_expr-Steady same_decimal e) (λ u. emit_op-Steady _))
        (λ u. emit_op-Steady _))
  last-Grows other =
      Grows-then _ _ (compile_stmt-Grows same_decimal _) (Steady-Grows _ (emit_op-Steady _))

  top-Grows : (ss : List (Stmt D)) → Grows (compile_top same_decimal ss)
  unfolding compile_top
  top-Grows [] = Steady-Grows _ (emit_op-Steady _)
  top-Grows (s ∷ []) = last-Grows s
  top-Grows (s ∷ t ∷ ss) = Grows-then _ _ (compile_stmt-Grows same_decimal s) (top-Grows (t ∷ ss))

  -- A chunk that ends with `Return`, with a span for every byte, and no function or scope left open.
  abbrev pub Finished : Unit {0} → Compiler D → Type 0
  Finished u d =
      ((body : List ℕ) × (d.current.code ≡ body ++ as_u8 return_op ∷ []))
      × (length d.current.spans ≡ length d.current.code)
      × (d.current.scope_depth ≡ 0)
      × (length d.enclosing ≡ 0)

  Finished-from :
      (c : Compiler D) (o : Outcome D (Unit {0}))
      → length c.enclosing ≡ 0
      → Post (After 0 (Added 0 []) c) o
      → Post Finished (and_then o (λ u. emit_op return_op))
  unfolding emit_op emit_bytes update
  Finished-from c (panicked p d) e h = h
  Finished-from c (done u d) e (kept, (t, at, q)) = (
    (d.current.code, refl),
    omega (
      arith,
      at.2,
      length-append d.current.code (as_u8 return_op ∷ []),
      length-append d.current.spans (dummy ∷ []),
    ),
    at.0 ∙ sym (ap (λ (x : Scopes). x.0) q.1),
    omega (arith, e, length-map frame c.enclosing, length-map frame d.enclosing, ap length kept.0),
  )

  -- The compiler of a program ends with a chunk whose last byte is `Return`, with a span for every byte, and
  -- with no function or scope left open, or it panics in a function whose pool of constants or patterns has over
  -- 255 entries, or for a compound assignment with an operator that has no instruction.
  pub compile_program-Finished :
      (program : Program D) (variants : List (Text × ℕ)) (structs : List Text)
      → Post Finished (compile_program same_decimal program variants structs)
  unfolding compile_program ◌>>=◌
  compile_program-Finished program variants structs =
      let c = new_compiler variants structs in
      Finished-from c (compile_top same_decimal program.stmts c) refl
        (((top-Grows program.stmts).runs 0 0 0 [] (omega arith) tt).at c (refl, refl, refl) refl)
