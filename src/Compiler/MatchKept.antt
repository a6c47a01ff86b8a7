-- ===== src/Compiler/MatchKept.antt =====
-- src/compiler/mod.rs: a match keeps the scopes: the names that a pattern binds are locals of its arm only.
use y.Prelude.{ℕ, ◌+◌, ◌≤◌, refl, codes, List, [], ◌∷◌, ◌++◌, All, All-mono, arith}
use y.Ast.Tree.{OptExpr, no_expr, an_expr, Pattern}
use y.Compiler.State.{Local, Compile, ◌>>=◌, pure}
use y.Compiler.Emit.{patch_jump}
use y.Compiler.Names.{pattern_binding_names, pattern_binding_count}
use y.Compiler.Forms.{declare_all}
use y.Compiler.Flow.{pop_locals, arm_body, guarded, match_arm, patch_all, compile_match}
use y.Compiler.Kept.{
  Scopes, IsScoped, Runs, To, Any, Steady, mono, thence, steadily, Steady-step, pure-Runs,
}
use y.Compiler.EmitKept.{Pending, emit_op-Steady, emit_jump-Runs}
use y.Compiler.JumpsKept.{add_pattern-Steady, jumps, patches}
use y.Compiler.ScopeKept.{local, declare_local-Runs, pop_local-Runs}
use y.Compiler.FunctionKept.{
  added, added-at, length-added, at-IsScoped, declare_all-Runs, pop_locals-Runs,
}
use y.Compiler.FormsKept.{emit_with-Steady, store_local-Steady}

-- Jumps that are to be patched.
abbrev pub AllPending : ℕ → List ℕ → ℕ → Type 0
AllPending n js more = All (λ o. Pending n o more) js

pub AllPending-later :
    (n : ℕ) (js : List ℕ) (a b : ℕ) → a ≤ b → AllPending n js a → AllPending n js b
AllPending-later n js a b l h =
    All-mono (λ o. Pending n o a) (λ o. Pending n o b) js (λ o x. (x.0, omega (arith, x.1, l))) h

module _ {D : Type 0} where
  pub patch_all-Runs :
      (n len : ℕ) (s : Scopes) (js : List ℕ)
      → All (λ o. Pending n o len) js
      → Runs {D = D} n len s (patch_all js) (To s Any)
  unfolding patch_all
  patch_all-Runs n len s [] h = pure-Runs n len s tt _ (refl, tt)
  patch_all-Runs n len s (j ∷ js) h = patches n len j s _ _ h.0.0 h.0.1 (λ more l.
      patch_all-Runs n more s js (
        All-mono (λ o. Pending n o len) (λ o. Pending n o more) js
          (λ o x. (x.0, omega (arith, x.1, l))) h.1))

  -- The body of an arm ends with the jump that is answered.
  arm_body-Runs :
      (n len count : ℕ) (s : Scopes) (body : Compile D (Unit {0}))
      → Steady body
      → n ≤ len
      → IsScoped s
      → Runs n len s (arm_body count body) (To s (Pending n))
  unfolding arm_body
  arm_body-Runs n len count s body h le w = steadily n len s _ body _ h le w (λ u l1 h1.
      steadily n l1 s _ _ _ (emit_with-Steady _ _) (omega arith) w (λ u l2 h2.
        mono n l2 s (To s (Pending l2)) (To s (Pending n)) _
          (emit_jump-Runs n l2 s _ (omega arith) w)
          (λ o more t q. (q.0, (omega (arith, q.1.0), q.1.1)))))

  guarded-Runs :
      (n len count : ℕ) (s : Scopes) (g : OptExpr D) (guard body : Compile D (Unit {0}))
      → Steady guard
      → Steady body
      → n ≤ len
      → IsScoped s
      → Runs n len s (guarded count g guard body) (To s (Pending n))
  guarded-Runs n len count s no_expr guard body hg hb le w =
      arm_body-Runs n len count s body hb le w
  guarded-Runs n len count s (an_expr e) guard body hg hb le w =
      steadily n len s _ guard _ hg le w (λ u l1 h1.
        jumps n l1 s _ _ _ (omega arith) w (λ o l2 h2 lo hi.
          thence n l2 s s (Pending n) _ _ _ (arm_body-Runs n l2 count s body hb (omega arith) w)
            (λ end l3 h3 q. patches n l3 o s _ _ (omega arith) (omega arith) (λ l4 h4.
              steadily n l4 s _ _ _ (emit_with-Steady _ _) (omega arith) w
                (λ u l5 h5. pure-Runs n l5 s end _ (refl, (q.0, omega (arith, q.1))))))))

  arm_inside :
      (n len d fail : ℕ) (ls : List Local) (p : Pattern D) (g : OptExpr D)
      (guard body : Compile D (Unit {0}))
      → Steady guard
      → Steady body
      → n ≤ len
      → n ≤ fail
      → fail + 2 ≤ len
      → IsScoped (d, ls)
      → Runs n len
          (d, ls)
          (declare_all (pattern_binding_names p) >>= λ u.
            guarded (pattern_binding_count p) g guard body >>= λ end.
            pop_locals (pattern_binding_names p) >>= λ u. patch_jump fail >>= λ u. pure end)
          (To (d, ls) (Pending n))
  arm_inside n len d fail ls p g guard body hg hb le lo hi w =
      let names = pattern_binding_names p in
      let new : List Local = added names d in
      let s : Scopes = (d, new ++ ls) in
      let w' : IsScoped s = at-IsScoped d new ls (added-at names d) w in
      thence n len (d, ls) s Any _ _ _ (declare_all-Runs n len d ls names le w)
        (λ u l1 h1 q1.
          thence n l1 s s (Pending n) _ _ _
            (guarded-Runs n l1 _ s g guard body hg hb (omega arith) w')
            (λ end l2 h2 q2.
              thence n l2 s (d, ls) Any _ _ _
                (pop_locals-Runs n l2 d names new ls (length-added names d))
                (λ u l3 h3 q3.
                  patches n l3 fail (d, ls) _ _ lo (omega arith)
                    (λ l4 h4. pure-Runs n l4 (d, ls) end _ (refl, (q2.0, omega (arith, q2.1)))))))

  arm_at :
      (n len slot d : ℕ) (ls : List Local) (p : Pattern D) (g : OptExpr D)
      (guard body : Compile D (Unit {0}))
      → Steady guard
      → Steady body
      → n ≤ len
      → IsScoped (d, ls)
      → Runs n len (d, ls) (match_arm slot p g guard body) (To (d, ls) (Pending n))
  unfolding match_arm
  arm_at n len slot d ls p g guard body hg hb le w =
      steadily n len (d, ls) _ _ _ (emit_with-Steady _ _) le w
        (λ u l1 h1.
          steadily n l1 (d, ls) _ _ _
            (Steady-step _ _ (add_pattern-Steady p) (λ i. emit_with-Steady _ i)) (omega arith) w
            (λ u l2 h2.
              jumps n l2 (d, ls) _ _ _ (omega arith) w
                (λ fail l3 h3 lo hi.
                  arm_inside n l3 d fail ls p g guard body hg hb (omega arith) (omega arith) hi w)))

  pub match_arm-Runs :
      (n len slot : ℕ) (s : Scopes) (p : Pattern D) (g : OptExpr D)
      (guard body : Compile D (Unit {0}))
      → Steady guard
      → Steady body
      → n ≤ len
      → IsScoped s
      → Runs n len s (match_arm slot p g guard body) (To s (Pending n))
  match_arm-Runs n len slot s p g guard body hg hb le w =
      arm_at n len slot s.0 s.1 p g guard body hg hb le w

  match_at :
      (n len d : ℕ) (ls : List Local) (scrutinee : Compile D (Unit {0}))
      (arms : ℕ → Compile D (List ℕ))
      → Steady scrutinee
      → ((slot len : ℕ) (s : Scopes)
          → n ≤ len
          → IsScoped s
          → Runs n len s (arms slot) (To s (AllPending n)))
      → n ≤ len
      → IsScoped (d, ls)
      → Runs n len (d, ls) (compile_match scrutinee arms) (To (d, ls) Any)
  unfolding compile_match
  match_at n len d ls scrutinee arms hs ha le w =
      let scrutinee_local = local (codes "__match_scrutinee") d in
      let s : Scopes = (d, scrutinee_local ∷ ls) in
      steadily n len (d, ls) _ scrutinee _ hs le w
        (λ u l1 h1.
          thence n l1 (d, ls) s Any _ _ _ (declare_local-Runs n l1 d ls _ (omega arith) w)
            (λ slot l2 h2 q2.
              steadily n l2 s _ _ _ (store_local-Steady slot) (omega arith) (omega arith, w)
                (λ u l3 h3.
                  thence n l3 s s (AllPending n) _ _ _ (ha slot l3 s (omega arith) (omega arith, w))
                    (λ ends l4 h4 q4.
                      steadily n l4 s _ _ _ (emit_op-Steady _) (omega arith) (omega arith, w)
                        (λ u l5 h5.
                          thence n l5 s s Any _ _ _
                            (patch_all-Runs n l5 s ends (AllPending-later n ends l4 l5 h5 q4))
                            (λ u l6 h6 q6.
                              steadily n l6 s _ _ _ (emit_with-Steady _ _) (omega arith)
                                (omega arith, w)
                                (λ u l7 h7. pop_local-Runs n l7 d scrutinee_local ls)))))))

  pub compile_match-Steady :
      (scrutinee : Compile D (Unit {0})) (arms : ℕ → Compile D (List ℕ))
      → Steady scrutinee
      → ((n slot len : ℕ) (s : Scopes)
          → n ≤ len
          → IsScoped s
          → Runs n len s (arms slot) (To s (AllPending n)))
      → Steady (compile_match scrutinee arms)
  compile_match-Steady scrutinee arms hs ha = record {
    runs = λ n len s le w. match_at n len s.0 s.1 scrutinee arms hs (ha n) le w;
  }
