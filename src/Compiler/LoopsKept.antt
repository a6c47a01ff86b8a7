-- ===== src/Compiler/LoopsKept.antt =====
-- src/compiler/mod.rs: loops and transactions keep the scopes: their hidden locals are gone behind them.
use y.Prelude.{ℕ, ◌+◌, ◌≤◌, refl, Text, List, [], ◌∷◌, arith}
use y.Vm.Chunk.{OpCode, nil_op, pop_loop_op, jump_op}
use y.Compiler.State.{Local, Compile, ◌>>=◌}
use y.Compiler.Emit.{emit_op, emit_jump, patch_jump, placeholder}
use y.Compiler.Flow.{
  while_loop, endless_loop, break_loop, continue_loop, transact, load_locals, new_local,
}
use y.Compiler.Kept.{
  Scopes, IsScoped, Runs, To, Any, Steady, thence, steadily, Steady-step, pure-Runs, pure-Steady,
}
use y.Compiler.EmitKept.{Pending, emit_op-Steady, emit_loop-Steady, patch_jump-Runs}
use y.Compiler.JumpsKept.{code_len-Steady, jumps, holds_place, patches, patches_u16}
use y.Compiler.ScopeKept.{local, declare_local-Runs}
use y.Compiler.FormsKept.{emits, emit_with-Steady, store_local-Steady}

module _ {D : Type 0} where
  -- The head of a loop: two addresses to patch.
  pub loop_head :
      (n len : ℕ) (s : Scopes) (op : OpCode) (f : ℕ → ℕ → Compile D (Unit {0}))
      → n ≤ len
      → IsScoped s
      → ((again out more : ℕ)
          → len ≤ more
          → Pending n again more
          → Pending n out more
          → Runs n more s (f again out) (To s Any))
      → Runs n len s
          (emit_op op >>= λ u. placeholder >>= λ again. placeholder >>= λ out. f again out)
          (To s Any)
  loop_head n len s op f le w k = steadily n len s _ _ _ (emit_op-Steady op) le w (λ u l1 h1.
      holds_place n l1 s _ _ (omega arith) (λ again l2 h2 a b.
        holds_place n l2 s _ _ (omega arith) (λ out l3 h3 c d.
          k again out l3 (omega arith) (omega arith, omega arith) (omega arith, d))))

  -- The end of a loop: the handlers of its normal end and of `break`.
  pub handlers :
      (n len exit out : ℕ) (s : Scopes) (tail : ℕ → Compile D (Unit {0}))
      → n ≤ len
      → IsScoped s
      → Pending n exit len
      → Pending n out len
      → ((over more : ℕ)
          → len ≤ more
          → n ≤ over
          → over + 2 ≤ more
          → Runs n more s (tail over) (To s Any))
      → Runs n len s
          (patch_jump exit >>= λ u. emit_op pop_loop_op >>= λ u. emit_op nil_op >>= λ u.
            emit_jump jump_op >>= λ over.
            patch_jump out >>= λ u. emit_op pop_loop_op >>= λ u. tail over)
          (To s Any)
  handlers n len exit out s tail le w e o k = patches n len exit s _ _ e.0 e.1 (λ l1 h1.
      steadily n l1 s _ _ _ (emit_op-Steady _) (omega arith) w (λ u l2 h2.
        steadily n l2 s _ _ _ (emit_op-Steady _) (omega arith) w (λ u l3 h3.
          jumps n l3 s _ _ _ (omega arith) w (λ over l4 h4 lo hi.
            patches n l4 out s _ _ o.0 (omega (arith, o.1)) (λ l5 h5.
              steadily n l5 s _ _ _ (emit_op-Steady _) (omega arith) w
                (λ u l6 h6. k over l6 (omega arith) (omega arith) (omega arith)))))))

  pub while_loop-Steady :
      (cond body : Compile D (Unit {0})) → Steady cond → Steady body → Steady (while_loop cond body)
  unfolding while_loop
  while_loop-Steady cond body hc hb = record {
    runs = λ n len s le w. loop_head n len s _ _ le w (λ again out l1 h1 a o.
        steadily n l1 s _ _ _ code_len-Steady (omega arith) w (λ start l2 h2.
          patches_u16 n l2 again _ s _ _ a.0 (omega (arith, a.1)) (λ l3 h3.
            steadily n l3 s _ cond _ hc (omega arith) w (λ u l4 h4.
              jumps n l4 s _ _ _ (omega arith) w (λ exit l5 h5 lo hi.
                steadily n l5 s _ body _ hb (omega arith) w (λ u l6 h6.
                  steadily n l6 s _ _ _ (emit_op-Steady _) (omega arith) w (λ u l7 h7.
                    steadily n l7 s _ _ _ (emit_loop-Steady start) (omega arith) w (λ u l8 h8.
                      handlers n l8 exit out s _ (omega arith) w (omega arith, omega arith)
                        (o.0, omega (arith, o.1))
                        (λ over l9 h9 x y. patch_jump-Runs n l9 over s x y)))))))));
  }

  pub endless_loop-Steady : (body : Compile D (Unit {0})) → Steady body → Steady (endless_loop body)
  unfolding endless_loop
  endless_loop-Steady body hb = record {
    runs = λ n len s le w. loop_head n len s _ _ le w (λ again out l1 h1 a o.
        steadily n l1 s _ _ _ code_len-Steady (omega arith) w (λ start l2 h2.
          patches_u16 n l2 again _ s _ _ a.0 (omega (arith, a.1)) (λ l3 h3.
            steadily n l3 s _ body _ hb (omega arith) w (λ u l4 h4.
              steadily n l4 s _ _ _ (emit_op-Steady _) (omega arith) w (λ u l5 h5.
                steadily n l5 s _ _ _ (emit_loop-Steady start) (omega arith) w (λ u l6 h6.
                  patches n l6 out s _ _ o.0 (omega (arith, o.1))
                    (λ l7 h7. (emit_op-Steady _).runs n l7 s (omega arith) w)))))));
  }

  pub break_loop-Steady : (value : Compile D (Unit {0})) → Steady value → Steady (break_loop value)
  unfolding break_loop
  break_loop-Steady value h = search emits depth 20

  pub continue_loop-Steady : Steady {D = D} continue_loop
  unfolding continue_loop
  continue_loop-Steady = search emits depth 20

  pub transact-Steady : (body : Compile D (Unit {0})) → Steady body → Steady (transact body)
  unfolding transact
  transact-Steady body h = search (emits, code_len-Steady) depth 20

  pub load_locals-Steady : (slots : List ℕ) → Steady {D = D} (load_locals slots)
  unfolding load_locals
  load_locals-Steady [] = pure-Steady tt
  load_locals-Steady (slot ∷ slots) =
      Steady-step _ _ (emit_with-Steady _ _) (λ u. load_locals-Steady slots)

  pub new_local-Runs :
      (n len d : ℕ) (ls : List Local) (name : Text)
      → n ≤ len
      → IsScoped (d, ls)
      → Runs {D = D} n len (d, ls) (new_local name) (To (d, local name d ∷ ls) Any)
  unfolding new_local
  new_local-Runs n len d ls name le w =
      thence n len (d, ls) (d, local name d ∷ ls) Any _ _ _
        (declare_local-Runs n len d ls name le w)
        (λ slot l1 h1 q1.
          steadily n l1 (d, local name d ∷ ls) _ _ _ (store_local-Steady slot) (omega arith)
            (omega arith, w) (λ u l2 h2. pure-Runs n l2 _ slot _ (refl, tt)))
