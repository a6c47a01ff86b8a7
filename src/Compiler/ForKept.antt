-- ===== src/Compiler/ForKept.antt =====
-- src/compiler/mod.rs: `for` keeps the scopes: its hidden locals are gone behind it.
use y.Prelude.{ℕ, suc, ◌+◌, ◌≤◌, refl, Text, codes, Bool, List, [], ◌∷◌, arith}
use y.Vm.Chunk.{nil_op, pop_op, pop_n_op}
use y.Compiler.State.{Local, Const, Compile, ◌>>=◌}
use y.Compiler.Emit.{emit_op, patch_jump}
use y.Compiler.Scope.{end_scope}
use y.Compiler.Forms.{emit_if_some}
use y.Compiler.Terms.{constant}
use y.Compiler.Flow.{new_local}
use y.Compiler.ForLoop.{call_builtin, for_body, increment, counted_loop, for_loop}
use y.Compiler.Kept.{Scopes, IsScoped, Runs, To, Any, Steady, thence, steadily}
use y.Compiler.EmitKept.{emit_op-Steady, emit_loop-Steady, patch_jump-Runs}
use y.Compiler.JumpsKept.{code_len-Steady, jumps, patches}
use y.Compiler.ScopeKept.{local, begin_scope-Runs, pop_local-Runs, end_scope-Runs}
use y.Compiler.FormsKept.{emits, emit_with-Steady, emit_if_some-Steady}
use y.Compiler.TermsKept.{named-Steady, constant-Steady}
use y.Compiler.FlowKept.{deeper, closes}
use y.Compiler.LoopsKept.{handlers, load_locals-Steady, loop_head, new_local-Runs}

module _ {D : Type 0} (same_decimal : D → D → Bool) where
  call_builtin-Steady :
      (name : Text) (slots : List ℕ) → Steady (call_builtin same_decimal name slots)
  unfolding call_builtin
  call_builtin-Steady name slots = search (emits, named-Steady, load_locals-Steady) depth 20

  for_body_at :
      (n len d iter i : ℕ) (ls : List Local) (var : Text) (body : Compile D (Unit {0}))
      → Steady body
      → n ≤ len
      → IsScoped (d, ls)
      → Runs n len (d, ls) (for_body same_decimal iter i var body) (To (d, ls) Any)
  unfolding for_body
  for_body_at n len d iter i ls var body h le w =
      let vs : List Local = local var d ∷ ls in
      steadily n len (d, ls) _ _ _ (call_builtin-Steady _ _) le w
        (λ u l1 h1.
          thence n l1 (d, ls) (d, vs) Any _ _ _ (new_local-Runs n l1 d ls var (omega arith) w)
            (λ slot l2 h2 q2.
              thence n l2 (d, vs) (suc d, vs) Any _ _ _ (begin_scope-Runs n l2 d vs)
                (λ u l3 h3 q3.
                  steadily n l3 (suc d, vs) _ body _ h (omega arith) (omega arith, deeper d ls w)
                    (λ u l4 h4.
                      steadily n l4 (suc d, vs) _ _ _ (emit_op-Steady _) (omega arith)
                        (omega arith, deeper d ls w)
                        (λ u l5 h5.
                          thence n l5 (suc d, vs) (d, vs) Any _ _ _
                            (end_scope-Runs n l5 d [] vs tt (omega arith, w))
                            (λ count l6 h6 q6.
                              steadily n l6 (d, vs) _ _ _ (emit_if_some-Steady _ count)
                                (omega arith) (omega arith, w)
                                (λ u l7 h7.
                                  steadily n l7 (d, vs) _ _ _ (emit_with-Steady _ _) (omega arith)
                                    (omega arith, w)
                                    (λ u l8 h8. pop_local-Runs n l8 d (local var d) ls))))))))

  increment-Steady : (slot : ℕ) → Steady (increment same_decimal slot)
  unfolding increment
  increment-Steady slot = search (emits, constant-Steady) depth 20

  counted_loop-Steady :
      (iter i count : ℕ) (var : Text) (body : Compile D (Unit {0}))
      → Steady body
      → Steady (counted_loop same_decimal iter i count var body)
  unfolding counted_loop
  counted_loop-Steady iter i count var body h = record {
    runs = λ n len s le w. loop_head n len s _ _ le w (λ again out l1 h1 a o.
        steadily n l1 s _ _ _ code_len-Steady (omega arith) w (λ start l2 h2.
          steadily n l2 s _ _ _ (load_locals-Steady _) (omega arith) w (λ u l3 h3.
            steadily n l3 s _ _ _ (emit_op-Steady _) (omega arith) w (λ u l4 h4.
              jumps n l4 s _ _ _ (omega arith) w (λ exit l5 h5 lo hi.
                thence n l5 s s Any _ _ _
                  (for_body_at n l5 s.0 iter i s.1 var body h (omega arith) w)
                  (λ u l6 h6 q6. patches n l6 again s _ _ a.0 (omega (arith, a.1)) (λ l7 h7.
                    steadily n l7 s _ _ _ (increment-Steady i) (omega arith) w (λ u l8 h8.
                      steadily n l8 s _ _ _ (emit_loop-Steady start) (omega arith) w (λ u l9 h9.
                        handlers n l9 exit out s _ (omega arith) w (omega arith, omega arith)
                          (o.0, omega (arith, o.1))
                          (λ over l10 h10 x y.
                            nothing_left n l10 over s (omega arith) w x y))))))))));
  }
    where
      nothing_left :
          (n len over : ℕ) (s : Scopes)
          → n ≤ len
          → IsScoped s
          → n ≤ over
          → over + 2 ≤ len
          → Runs {D = D} n len s
              (emit_op pop_op >>= λ u. emit_op nil_op >>= λ u. patch_jump over)
              (To s Any)
      nothing_left n len over s le w x y =
          steadily n len s _ _ _ (emit_op-Steady _) le w (λ u l1 h1.
            steadily n l1 s _ _ _ (emit_op-Steady _) (omega arith) w
              (λ u l2 h2. patch_jump-Runs n l2 over s x (omega arith)))

  -- What follows the first hidden local.
  for_counted :
      (n len d it : ℕ) (ls : List Local) (var : Text) (body : Compile D (Unit {0}))
      → Steady body
      → n ≤ len
      → IsScoped (d, ls)
      → Runs n len
          (suc d, local (codes "__for_iter") (suc d) ∷ ls)
          (constant same_decimal (Const.int 0) >>= λ u. new_local (codes "__for_i") >>= λ i.
            call_builtin same_decimal (codes "count") (it ∷ []) >>= λ u.
            new_local (codes "__for_n") >>= λ count.
            counted_loop same_decimal it i count var body >>= λ u.
            end_scope >>= emit_if_some pop_n_op)
          (To (d, ls) Any)
  for_counted n len d it ls var body hb le w =
      let ls1 : List Local = local (codes "__for_iter") (suc d) ∷ ls in
      let ls2 : List Local = local (codes "__for_i") (suc d) ∷ ls1 in
      let ls3 : List Local = local (codes "__for_n") (suc d) ∷ ls2 in
      let new : List Local =
        local (codes "__for_n") (suc d)
        ∷ local (codes "__for_i") (suc d)
        ∷ local (codes "__for_iter") (suc d)
        ∷ [] in
      let w1 : IsScoped (suc d, ls1) = (omega arith, deeper d ls w) in
      let w2 : IsScoped (suc d, ls2) = (omega arith, w1) in
      let w3 : IsScoped (suc d, ls3) = (omega arith, w2) in
      steadily n len (suc d, ls1) _ _ _ (constant-Steady same_decimal _) le w1
        (λ u l1 h1.
          thence n l1 (suc d, ls1) (suc d, ls2) Any _ _ _
            (new_local-Runs n l1 (suc d) ls1 _ (omega arith) w1)
            (λ i l2 h2 q2.
              steadily n l2 (suc d, ls2) _ _ _ (call_builtin-Steady _ _) (omega arith) w2
                (λ u l3 h3.
                  thence n l3 (suc d, ls2) (suc d, ls3) Any _ _ _
                    (new_local-Runs n l3 (suc d) ls2 _ (omega arith) w2)
                    (λ count l4 h4 q4.
                      steadily n l4 (suc d, ls3) _ _ _ (counted_loop-Steady it i count var body hb)
                        (omega arith) w3
                        (λ u l5 h5.
                          closes n l5 d new ls _ (omega arith) (refl, (refl, (refl, tt))) w
                            (λ c. emit_if_some-Steady _ c))))))

  for_at :
      (n len d : ℕ) (ls : List Local) (var : Text) (iter body : Compile D (Unit {0}))
      → Steady iter
      → Steady body
      → n ≤ len
      → IsScoped (d, ls)
      → Runs n len (d, ls) (for_loop same_decimal var iter body) (To (d, ls) Any)
  unfolding for_loop
  for_at n len d ls var iter body hi hb le w =
      let w1 : IsScoped (suc d, ls) = deeper d ls w in
      let ls1 : List Local = local (codes "__for_iter") (suc d) ∷ ls in
      thence n len (d, ls) (suc d, ls) Any _ _ _ (begin_scope-Runs n len d ls)
        (λ u l1 h1 q1.
          steadily n l1 (suc d, ls) _ _ _ (named-Steady same_decimal _ _) (omega arith) w1
            (λ u l2 h2.
              steadily n l2 (suc d, ls) _ iter _ hi (omega arith) w1
                (λ u l3 h3.
                  steadily n l3 (suc d, ls) _ _ _ (emit_with-Steady _ _) (omega arith) w1
                    (λ u l4 h4.
                      thence n l4 (suc d, ls) (suc d, ls1) Any _ _ _
                        (new_local-Runs n l4 (suc d) ls _ (omega arith) w1)
                        (λ it l5 h5 q5. for_counted n l5 d it ls var body hb (omega arith) w)))))

  pub for_loop-Steady :
      (var : Text) (iter body : Compile D (Unit {0}))
      → Steady iter
      → Steady body
      → Steady (for_loop same_decimal var iter body)
  for_loop-Steady var iter body hi hb = record {
    runs = λ n len s le w. for_at n len s.0 s.1 var iter body hi hb le w;
  }
