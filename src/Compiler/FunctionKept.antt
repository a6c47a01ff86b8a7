-- ===== src/Compiler/FunctionKept.antt =====
-- src/compiler/mod.rs: a function that is compiled leaves the one around it as it was, but for its
-- sub-chunks and upvalues.
use y.Prelude.{
  ℕ, ◌≤◌, ◌≡◌, refl, sym, subst, ap, ◌∙◌, Text, List, [], ◌∷◌, ◌++◌, append_assoc, Option, map,
  length, length-append, All-append, All-mono, arith,
}
use y.Compiler.State.{
  Local, FuncCtx, Compiler, Outcome, done, panicked, Compile, and_then, ◌>>=◌, function, new_ctx,
}
use y.Compiler.Scope.{declare_local, pop_local}
use y.Compiler.Forms.{
  push_function, popped, pop_function, declare_all, set_arity, function_body, compile_function,
}
use y.Compiler.Flow.{pop_locals}
use y.Compiler.Kept.{
  Scopes, IsScoped, At, Post, After, Runs, To, Any, Steady, frame, mono, thence, Steady-step,
  pure-Runs, update-Steady,
}
use y.Compiler.EmitKept.{emit_op-Steady}
use y.Compiler.ScopeKept.{
  local, AllAt, declare_local-Runs, pop_local-Runs, frame-At, frame-SameCode,
}

-- The locals that are declared for names, the latest first.
abbrev pub added : List Text → ℕ → List Local
added [] d = []
added (n ∷ ns) d = added ns d ++ local n d ∷ []

pub added-at : (ns : List Text) (d : ℕ) → AllAt d (added ns d)
added-at [] d = tt
added-at (n ∷ ns) d = All-append (λ l. l.depth ≡ d) (added ns d) _ (added-at ns d) (refl, tt)

pub length-added : (ns : List Text) (d : ℕ) → length (added ns d) ≡ length ns
length-added [] d = refl
length-added (n ∷ ns) d =
    omega (arith, length-append (added ns d) (local n d ∷ []), length-added ns d)

pub at-IsScoped :
    (d : ℕ) (new ls : List Local) → AllAt d new → IsScoped (d, ls) → IsScoped (d, new ++ ls)
at-IsScoped d new ls h w =
    All-append (λ l. l.depth ≤ d) new ls
      (All-mono (λ l. l.depth ≡ d) (λ l. l.depth ≤ d) new (λ l e. omega (arith, e)) h) w

module _ {D : Type 0} where
  pub declare_all-Runs :
      (n len d : ℕ) (ls : List Local) (names : List Text)
      → n ≤ len
      → IsScoped (d, ls)
      → Runs {D = D} n len (d, ls) (declare_all names) (To (d, added names d ++ ls) Any)
  unfolding declare_all
  declare_all-Runs n len d ls [] le w = pure-Runs n len (d, ls) tt _ (refl, tt)
  declare_all-Runs n len d ls (name ∷ names) le w =
      thence n len (d, ls) (d, local name d ∷ ls) Any _ (declare_local name) _
        (declare_local-Runs n len d ls name le w)
        (λ slot more l q.
          subst
            (λ x. Runs {D = D} n more (d, local name d ∷ ls) (declare_all names) (To (d, x) Any))
            (sym (append_assoc (added names d) (local name d ∷ []) ls))
            (declare_all-Runs n more d (local name d ∷ ls) names (omega arith) (omega arith, w)))

  pub pop_locals-Runs :
      (n len d : ℕ) (names : List Text) (new ls : List Local)
      → length new ≡ length names
      → Runs {D = D} n len (d, new ++ ls) (pop_locals names) (To (d, ls) Any)
  unfolding pop_locals
  pop_locals-Runs n len d [] [] ls e = pure-Runs n len (d, ls) tt _ (refl, tt)
  pop_locals-Runs n len d [] (l ∷ new) ls e = absurd (omega (arith, e))
  pop_locals-Runs n len d (name ∷ names) [] ls e = absurd (omega (arith, e))
  pop_locals-Runs n len d (name ∷ names) (l ∷ new) ls e =
      thence n len (d, l ∷ (new ++ ls)) (d, new ++ ls) Any _ pop_local _
        (pop_local-Runs n len d l (new ++ ls))
        (λ u more le q. pop_locals-Runs n more d names new ls (omega (arith, e)))

  pub set_arity-Steady : (n : ℕ) → Steady {D = D} (set_arity n)
  unfolding set_arity
  set_arity-Steady n = update-Steady _ (λ f. (refl, refl, refl, refl, refl))

  -- The body of a function, from its first byte on.
  body-Runs :
      (params : List Text) (body : Compile D (Unit {0}))
      → Steady body
      → Runs {D = D} 0 0 (0, []) (function_body params body) (λ u more t. Unit)
  unfolding function_body
  body-Runs params body h =
      let s : Scopes = (0, added params 0 ++ []) in
      let w : IsScoped s = at-IsScoped 0 (added params 0) [] (added-at params 0) tt in
      thence 0 0 (0, []) s Any _ (declare_all params) _
        (declare_all-Runs 0 0 0 [] params (omega arith) tt)
        (λ u more l q.
          mono 0 more s (To s Any) (λ v now t. Unit) _
            ((Steady-step _ _ (set_arity-Steady _)
                (λ u. Steady-step _ _ h (λ u. emit_op-Steady _))).runs
              0 more s (omega arith) w)
            (λ v now t q. tt))

  abbrev first_or : FuncCtx D → List (FuncCtx D) → FuncCtx D
  first_or f [] = f
  first_or f (g ∷ gs) = g

  abbrev rest_of : List (FuncCtx D) → List (FuncCtx D)
  rest_of [] = []
  rest_of (g ∷ gs) = gs

  popped-After :
      (n : ℕ) (s : Scopes) (c d : Compiler D) (f : FuncCtx D) (outer : List (FuncCtx D))
      → At s c.current
      → map frame (c.current ∷ c.enclosing) ≡ map frame outer
      → Post (After n (To s Any) c) (popped f outer d)
  popped-After n s c d f [] at e = absurd (omega (arith, ap length e))
  popped-After n s c d f (g ∷ gs) at e =
      let same = ap (first_or (frame c.current)) e in
      (
        (
          ap rest_of e,
          ap (λ (x : FuncCtx D). x.function_type) same,
          frame-SameCode n c.current g (sym same),
        ),
        (s, frame-At s g c.current (sym same) at, (refl, tt)),
      )

  ended-After :
      (n : ℕ) (s : Scopes) (c pushed : Compiler D) (o : Outcome D (Unit {0}))
      → At s c.current
      → map frame (c.current ∷ c.enclosing) ≡ map frame pushed.enclosing
      → Post (After 0 (λ u more t. Unit) pushed) o
      → Post (After n (To s Any) c) (and_then o (λ u. pop_function))
  unfolding pop_function
  ended-After n s c pushed (done u d) at e h =
      popped-After n s c d d.current d.enclosing at (e ∙ h.0.0)
  ended-After n s c pushed (panicked p d) at e h = h

  pub compile_function-Steady :
      (name : Option Text) (params : List Text) (body : Compile D (Unit {0}))
      → Steady body
      → Steady (compile_function name params body)
  unfolding compile_function push_function ◌>>=◌
  compile_function-Steady name params body h = record {
    runs = λ n len s le w. record {
      at = λ c at e.
          let pushed : Compiler D = record c {
            current = new_ctx function name;
            enclosing = c.current ∷ c.enclosing;
          } in
          ended-After n s c pushed (function_body params body pushed) at refl
            ((body-Runs params body h).at pushed (refl, refl, refl) refl);
    };
  }
