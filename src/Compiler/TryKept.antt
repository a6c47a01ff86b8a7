-- ===== src/Compiler/TryKept.antt =====
-- src/compiler/mod.rs: `try` with its rescue clauses, and actors, keep the scopes.
use y.Prelude.{
  ℕ, ◌≤◌, refl, Text, Bool, true, false, List, [], ◌∷◌, ◌++◌, Option, none, some, All-append, arith,
}
use y.Ast.Tree.{OptExpr, no_expr, an_expr}
use y.Vm.Chunk.{OpCode}
use y.Compiler.State.{UpvalueInfo, Compile, ◌>>=◌}
use y.Compiler.Emit.{emit_op}
use y.Compiler.Flow.{patch_some, rescue_call, uncaught, ensured, compile_try, patch_all}
use y.Compiler.Rescue.{rescue_test, rescue_clause, define_actor, actor_member}
use y.Compiler.Kept.{
  Scopes, IsScoped, Runs, To, Any, Steady, thence, steadily, Steady-step, pure-Runs,
}
use y.Compiler.EmitKept.{Pending, emit_op-Steady, patch_jump-Runs}
use y.Compiler.JumpsKept.{code_len-Steady, jumps, holds_place, patches, patches_u16}
use y.Compiler.FunctionKept.{compile_function-Steady}
use y.Compiler.FormsKept.{emits, emit_with-Steady, emit_closure-Steady}
use y.Compiler.TermsKept.{add_to_pool-Steady, named-Steady}
use y.Compiler.MatchKept.{AllPending, AllPending-later, patch_all-Runs}

-- The jump of a test that failed, if there is one.
abbrev pub SomePending : ℕ → Option ℕ → ℕ → Type 0
SomePending n none more = Unit
SomePending n (some o) more = Pending n o more

pub SomePending-later :
    (n : ℕ) (o : Option ℕ) (a b : ℕ) → a ≤ b → SomePending n o a → SomePending n o b
SomePending-later n none a b l h = tt
SomePending-later n (some o) a b l h = (h.0, omega (arith, h.1, l))

-- What a clause answers: the jump of its test, and that behind the handlers.
abbrev pub ClausePending : ℕ → Option ℕ × ℕ → ℕ → Type 0
ClausePending n r more = SomePending n r.0 more × Pending n r.1 more

abbrev pub ClausesPending : ℕ → Option ℕ × List ℕ → ℕ → Type 0
ClausesPending n r more = SomePending n r.0 more × AllPending n r.1 more

module _ {D : Type 0} where
  patch_some-Runs :
      (n len : ℕ) (s : Scopes) (o : Option ℕ)
      → SomePending n o len
      → Runs {D = D} n len s (patch_some o) (To s Any)
  patch_some-Runs n len s none h = pure-Runs n len s tt _ (refl, tt)
  patch_some-Runs n len s (some o) h = patch_jump-Runs n len o s h.0 h.1

  rescue_call-Steady :
      (bind : Option Text) (f : ℕ × List UpvalueInfo) → Steady {D = D} (rescue_call bind f)
  rescue_call-Steady none f = search (emits, emit_closure-Steady) depth 20
  rescue_call-Steady (some name) f = search (emits, emit_closure-Steady) depth 20

  uncaught-Runs :
      (n len : ℕ) (s : Scopes) (caught : Bool) (ensure : OptExpr D) (exits : List ℕ)
      → n ≤ len
      → IsScoped s
      → AllPending n exits len
      → Runs n len s (uncaught caught ensure exits) (To s (AllPending n))
  uncaught-Runs n len s true ensure exits le w h = pure-Runs n len s exits _ (refl, h)
  uncaught-Runs n len s false no_expr exits le w h =
      steadily n len s _ _ _ (emit_op-Steady _) le w
        (λ u l1 h1. pure-Runs n l1 s exits _ (refl, AllPending-later n exits len l1 h1 h))
  uncaught-Runs n len s false (an_expr e) exits le w h =
      steadily n len s _ _ _ (emit_op-Steady _) le w (λ u l1 h1.
        jumps n l1 s _ _ _ (omega arith) w (λ o l2 h2 lo hi. pure-Runs n l2 s (exits ++ o ∷ []) _ (
          refl,
          All-append (λ x. Pending n x l2) exits (o ∷ [])
              (AllPending-later n exits len l2 (omega arith) h) ((omega arith, hi), tt),
        )))

  ensured-Runs :
      (n len patch addr : ℕ) (s : Scopes) (ensure : OptExpr D) (code : Compile D (Unit {0}))
      → Steady code
      → n ≤ len
      → IsScoped s
      → Pending n patch len
      → Runs n len s (ensured ensure patch addr code) (To s Any)
  ensured-Runs n len patch addr s no_expr code h le w p = pure-Runs n len s tt _ (refl, tt)
  ensured-Runs n len patch addr s (an_expr e) code h le w p =
      patches_u16 n len patch addr s _ _ p.0 p.1 (λ l1 h1.
        steadily n l1 s _ code _ h (omega arith) w (λ u l2 h2.
          steadily n l2 s _ _ _ (emit_op-Steady _) (omega arith) w
            (λ u l3 h3. (emit_op-Steady _).runs n l3 s (omega arith) w)))

  -- What follows the body and its jump.
  try_rest :
      (n len rescue_patch ensure_patch over : ℕ) (s : Scopes) (caught : Bool) (ensure : OptExpr D)
      (rescues : Compile D (Option ℕ × List ℕ)) (code : Compile D (Unit {0}))
      → ((len : ℕ) → n ≤ len → Runs n len s rescues (To s (ClausesPending n)))
      → Steady code
      → n ≤ len
      → IsScoped s
      → Pending n rescue_patch len
      → Pending n ensure_patch len
      → Pending n over len
      → Runs n len s
          (y.Compiler.Emit.patch_jump rescue_patch >>= λ u. rescues >>= λ clauses.
            patch_some clauses.0 >>= λ u. uncaught caught ensure clauses.1 >>= λ exits.
            y.Compiler.Emit.current_code_len >>= λ addr. y.Compiler.Emit.patch_jump over >>= λ u.
            patch_all exits >>= λ u.
            ensured ensure ensure_patch (y.Compiler.Emit.as_word addr) code)
          (To s Any)
  try_rest n len rp ep over s caught ensure rescues code hr h le w r e o =
      patches n len rp s _ _ r.0 r.1 (λ l1 h1.
        thence n l1 s s (ClausesPending n) _ rescues _ (hr l1 (omega arith)) (λ clauses l2 h2 q2.
          thence n l2 s s Any _ _ _ (patch_some-Runs n l2 s clauses.0 q2.0) (λ u l3 h3 q3.
            thence n l3 s s (AllPending n) _ _ _
              (uncaught-Runs n l3 s caught ensure clauses.1 (omega arith) w
                (AllPending-later n clauses.1 l2 l3 h3 q2.1))
              (λ exits l4 h4 q4.
                steadily n l4 s _ _ _ code_len-Steady (omega arith) w (λ addr l5 h5.
                  patches n l5 over s _ _ o.0 (omega (arith, o.1)) (λ l6 h6.
                    thence n l6 s s Any _ _ _
                      (patch_all-Runs n l6 s exits
                        (AllPending-later n exits l4 l6 (omega arith) q4))
                      (λ u l7 h7 q7.
                        ensured-Runs n l7 ep _ s ensure code h (omega arith) w
                          (e.0, omega (arith, e.1)))))))))

  pub compile_try-Steady :
      (caught : Bool) (ensure : OptExpr D) (body : Compile D (Unit {0}))
      (rescues : Compile D (Option ℕ × List ℕ)) (code : Compile D (Unit {0}))
      → Steady body
      → ((n len : ℕ) (s : Scopes)
          → n ≤ len
          → IsScoped s
          → Runs n len s rescues (To s (ClausesPending n)))
      → Steady code
      → Steady (compile_try caught ensure body rescues code)
  unfolding compile_try
  compile_try-Steady caught ensure body rescues code hb hr h = record {
    runs = λ n len s le w. steadily n len s _ _ _ (emit_op-Steady _) le w (λ u l1 h1.
        holds_place n l1 s _ _ (omega arith) (λ rp l2 h2 a b.
          holds_place n l2 s _ _ (omega arith) (λ ep l3 h3 c d.
            steadily n l3 s _ body _ hb (omega arith) w (λ u l4 h4.
              steadily n l4 s _ _ _ (emit_op-Steady _) (omega arith) w (λ u l5 h5.
                jumps n l5 s _ _ _ (omega arith) w (λ over l6 h6 x y.
                  try_rest n l6 rp ep over s caught ensure rescues code (λ l le'. hr n l s le' w) h
                    (omega arith) w (omega arith, omega arith) (omega arith, omega arith)
                    (omega arith, omega arith)))))));
  }

module _ {D : Type 0} (same_decimal : D → D → Bool) where
  rescue_test-Runs :
      (n len : ℕ) (s : Scopes) (type : Option Text)
      → n ≤ len
      → IsScoped s
      → Runs n len s (rescue_test same_decimal type) (To s (SomePending n))
  rescue_test-Runs n len s none le w = pure-Runs n len s none _ (refl, tt)
  rescue_test-Runs n len s (some type) le w =
      steadily n len s _ _ _
        (Steady-step _ _ (add_to_pool-Steady same_decimal _) (λ i. emit_with-Steady _ i)) le w
        (λ u l1 h1.
          jumps n l1 s _ _ _ (omega arith) w
            (λ o l2 h2 lo hi. pure-Runs n l2 s (some o) _ (refl, (omega arith, hi))))

  pub rescue_clause-Runs :
      (n len : ℕ) (s : Scopes) (next : Option ℕ) (t b : Option Text) (body : Compile D (Unit {0}))
      → Steady body
      → n ≤ len
      → IsScoped s
      → SomePending n next len
      → Runs n len s (rescue_clause same_decimal next t b body) (To s (ClausePending n))
  unfolding rescue_clause
  rescue_clause-Runs n len s next t b body h le w p =
      thence n len s s Any _ _ _ (patch_some-Runs n len s next p) (λ u l1 h1 q1.
        thence n l1 s s (SomePending n) _ _ _ (rescue_test-Runs n l1 s t (omega arith) w)
          (λ test l2 h2 q2. steadily n l2 s _ _ _ (emit_op-Steady _) (omega arith) w (λ u l3 h3.
            steadily n l3 s _ _ _
              (Steady-step _ _ (compile_function-Steady _ _ body h) (λ f. rescue_call-Steady b f))
              (omega arith) w
              (λ u l4 h4. jumps n l4 s _ _ _ (omega arith) w (λ exit l5 h5 lo hi.
                pure-Runs n l5 s (test, exit) _
                  (refl, (SomePending-later n test l2 l5 (omega arith) q2, (omega arith, hi))))))))

  pub define_actor-Steady :
      (name : Text) (body : Compile D (Unit {0}))
      → Steady body
      → Steady (define_actor same_decimal name body)
  unfolding define_actor
  define_actor-Steady name body h =
      Steady-step _ _
        (compile_function-Steady (some name) [] _ (Steady-step _ _ h (λ u. emit_op-Steady _)))
        (λ init. search (emits, add_to_pool-Steady) depth 20)

  pub actor_member-Steady :
      (op : OpCode) (name : Text) (params : List Text) (body : Compile D (Unit {0}))
      → Steady body
      → Steady (actor_member same_decimal op name params body)
  unfolding actor_member
  actor_member-Steady op name params body h =
      Steady-step _ _
        (Steady-step _ _ (compile_function-Steady (some name) params body h)
          (λ f. emit_closure-Steady f))
        (λ u. named-Steady same_decimal op name)
