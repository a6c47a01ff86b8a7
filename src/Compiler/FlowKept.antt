-- ===== src/Compiler/FlowKept.antt =====
-- src/compiler/mod.rs: branches, matches and blocks keep the scopes, and every jump is patched within the
-- code of its own expression.
use y.Prelude.{
  ℕ, suc, ◌≤◌, ◌≡◌, refl, subst, ap, ◌∙◌, Text, List, [], ◌∷◌, ◌++◌, append_assoc, Option, some,
  All-append, All-mono, arith,
}
use y.Ast.Types.{BinOp}
use y.Vm.Chunk.{OpCode, pop_local_keep_op}
use y.Compiler.State.{Local, Compile, ◌>>=◌, ◌>>◌, pure}
use y.Compiler.Scope.{declare_local, end_scope}
use y.Compiler.Forms.{store_local, emit_if_some}
use y.Compiler.Flow.{if_else, shortcut, compile_binop, block}
use y.Compiler.Kept.{
  Scopes, IsScoped, Runs, To, Any, Steady, mono, step, thence, steadily, Steady-step, pure-Runs,
}
use y.Compiler.EmitKept.{emit_op-Steady, patch_jump-Runs}
use y.Compiler.JumpsKept.{jumps, patches}
use y.Compiler.ScopeKept.{local, AllAt, begin_scope-Runs, declare_local-Runs, end_scope-Runs}
use y.Compiler.FunctionKept.{at-IsScoped}
use y.Compiler.FormsKept.{store_local-Steady, emit_if_some-Steady, emit_binop_simple-Steady}

-- Statements add locals of the scope they stand in.
abbrev pub Added : ℕ → List Local → Unit {0} → ℕ → Scopes → Type 0
Added d ls u more t = (new : List Local) × ((d, new ++ ls) ≡ t) × AllAt d new

pub deeper : (d : ℕ) (ls : List Local) → IsScoped (d, ls) → IsScoped (suc d, ls)
deeper d ls w = All-mono (λ l. l.depth ≤ d) (λ l. l.depth ≤ suc d) ls (λ l x. omega (arith, x)) w

module _ {D : Type 0} where
  pub if_else-Steady :
      (cond then_code else_code : Compile D (Unit {0}))
      → Steady cond
      → Steady then_code
      → Steady else_code
      → Steady (if_else cond then_code else_code)
  unfolding if_else
  if_else-Steady cond t e hc ht he = record {
    runs = λ n len s le w. steadily n len s _ cond _ hc le w (λ u l1 h1.
        jumps n l1 s _ _ _ (omega arith) w (λ o l2 h2 lo hi.
          steadily n l2 s _ t _ ht (omega arith) w (λ u l3 h3.
            jumps n l3 s _ _ _ (omega arith) w (λ end l4 h4 lo' hi'.
              patches n l4 o s _ _ (omega arith) (omega arith) (λ l5 h5.
                steadily n l5 s _ e _ he (omega arith) w
                  (λ u l6 h6. patch_jump-Runs n l6 end s (omega arith) (omega arith)))))));
  }

  shortcut-Steady :
      (when : OpCode) (lhs rhs : Compile D (Unit {0}))
      → Steady lhs
      → Steady rhs
      → Steady (shortcut when lhs rhs)
  unfolding shortcut
  shortcut-Steady when lhs rhs hl hr = record {
    runs = λ n len s le w. steadily n len s _ lhs _ hl le w (λ u l1 h1.
        steadily n l1 s _ _ _ (emit_op-Steady _) (omega arith) w (λ u l2 h2.
          jumps n l2 s _ _ _ (omega arith) w (λ o l3 h3 lo hi.
            steadily n l3 s _ _ _ (emit_op-Steady _) (omega arith) w (λ u l4 h4.
              steadily n l4 s _ rhs _ hr (omega arith) w
                (λ u l5 h5. patch_jump-Runs n l5 o s (omega arith) (omega arith))))));
  }

  pub compile_binop-Steady :
      (op : BinOp) (lhs rhs : Compile D (Unit {0}))
      → Steady lhs
      → Steady rhs
      → Steady (compile_binop op lhs rhs)
  compile_binop-Steady BinOp.and lhs rhs l r = shortcut-Steady _ lhs rhs l r
  compile_binop-Steady BinOp.or lhs rhs l r = shortcut-Steady _ lhs rhs l r
  compile_binop-Steady op lhs rhs l r =
      Steady-step _ _ (Steady-step _ _ l (λ u. r)) (λ u. emit_binop_simple-Steady _)

  pub record Grows (m : Compile D (Unit {0})) : Type 0 where
    pub runs :
        (n len d : ℕ) (ls : List Local)
        → n ≤ len
        → IsScoped (d, ls)
        → Runs n len (d, ls) m (Added d ls)

  pub Steady-Grows : (m : Compile D (Unit {0})) → Steady m → Grows m
  Steady-Grows m h = record {
    runs = λ n len d ls le w.
        mono n len (d, ls) (To (d, ls) Any) (Added d ls) m (h.runs n len (d, ls) le w)
          (λ u more t q. ([], q.0, tt));
  }

  Added-before :
      (n len d : ℕ) (new ls : List Local) (m : Compile D (Unit {0}))
      → AllAt d new
      → Runs n len (d, new ++ ls) m (Added d (new ++ ls))
      → Runs n len (d, new ++ ls) m (Added d ls)
  Added-before n len d new ls m h r =
      mono n len (d, new ++ ls) (Added d (new ++ ls)) (Added d ls) m r
        (λ u more t q. (
          q.0 ++ new,
          ap (λ x. (d, x)) (append_assoc q.0 new ls) ∙ q.1,
          All-append (λ l. l.depth ≡ d) q.0 new q.2 h,
        ))

  pub Grows-then : (m k : Compile D (Unit {0})) → Grows m → Grows k → Grows (m >> k)
  Grows-then m k g h = record {
    runs = λ n len d ls le w.
        step n len (d, ls) (Added d ls) (Added d ls) m (λ u. k) (g.runs n len d ls le w)
          (λ u more t l q.
            subst (λ x. Runs n more x k (Added d ls)) q.1
              (Added-before n more d q.0 ls k q.2
                (h.runs n more d (q.0 ++ ls) (omega arith) (at-IsScoped d q.0 ls q.2 w))));
  }

  -- A scope is closed, and its locals are popped.
  pub closes :
      (n len d : ℕ) (new ls : List Local) (f : ℕ → Compile D (Unit {0}))
      → n ≤ len
      → AllAt (suc d) new
      → IsScoped (d, ls)
      → ((count : ℕ) → Steady (f count))
      → Runs n len (suc d, new ++ ls) (end_scope >>= f) (To (d, ls) Any)
  closes n len d new ls f le h w k =
      thence n len (suc d, new ++ ls) (d, ls) Any _ end_scope f (end_scope-Runs n len d new ls h w)
        (λ count more l q. (k count).runs n more (d, ls) (omega arith) w)

  block_end :
      (tail : Compile D (Unit {0})) (n len d : ℕ) (new ls : List Local)
      → Steady tail
      → n ≤ len
      → AllAt (suc d) new
      → IsScoped (d, ls)
      → Runs n len
          (suc d, new ++ ls)
          (tail >>= λ u. end_scope >>= emit_if_some pop_local_keep_op)
          (To (d, ls) Any)
  block_end tail n len d new ls h le at w =
      steadily n len (suc d, new ++ ls) _ tail _ h le
        (at-IsScoped (suc d) new ls at (deeper d ls w))
        (λ u more l.
          closes n more d new ls _ (omega arith) at w (λ count. emit_if_some-Steady _ count))

  block_at :
      (stmts tail : Compile D (Unit {0})) (n len d : ℕ) (ls : List Local)
      → Grows stmts
      → Steady tail
      → n ≤ len
      → IsScoped (d, ls)
      → Runs n len (d, ls) (block stmts tail) (To (d, ls) Any)
  unfolding block
  block_at stmts tail n len d ls g h le w =
      thence n len (d, ls) (suc d, ls) Any _ _ _ (begin_scope-Runs n len d ls)
        (λ u l1 h1 q1.
          step n l1 (suc d, ls) (Added (suc d) ls) _ stmts _
            (g.runs n l1 (suc d) ls (omega arith) (deeper d ls w))
            (λ u l2 t h2 q.
              subst
                (λ x.
                  Runs n l2 x (tail >>= λ u. end_scope >>= emit_if_some pop_local_keep_op)
                    (To (d, ls) Any))
                q.1 (block_end tail n l2 d q.0 ls h (omega arith) q.2 w)))

  pub block-Steady :
      (stmts tail : Compile D (Unit {0})) → Grows stmts → Steady tail → Steady (block stmts tail)
  block-Steady stmts tail g h = record {
    runs = λ n len s le w. block_at stmts tail n len s.0 s.1 g h le w;
  }

  -- A name is bound as a global, or as a local of the scope.
  pub declared-Grows : (name : Text) → Grows (declare_local name >>= store_local)
  declared-Grows name = record {
    runs = λ n len d ls le w.
        thence n len (d, ls) (d, local name d ∷ ls) Any _ _ _
          (declare_local-Runs n len d ls name le w)
          (λ slot more l q.
            mono n more _ (To (d, local name d ∷ ls) Any) (Added d ls) _
              ((store_local-Steady slot).runs n more _ (omega arith) (omega arith, w))
              (λ u now t r. (local name d ∷ [], r.0, (refl, tt))));
  }

  -- A local is declared, and code that keeps the scopes follows.
  pub declared_then :
      (name : Text) (f : Option ℕ → Compile D (Unit {0}))
      → ((slot : Option ℕ) → Steady (f slot))
      → Grows ((declare_local name >>= λ slot. pure (some slot)) >>= f)
  declared_then name f h = record {
    runs = λ n len d ls le w.
        let s : Scopes = (d, local name d ∷ ls) in
        thence n len (d, ls) s Any _ _ f
          (thence n len (d, ls) s Any _ _ _ (declare_local-Runs n len d ls name le w)
            (λ slot more l q. pure-Runs n more s (some slot) (To s Any) (refl, tt)))
          (λ slot more l q.
            mono n more s (To s Any) (Added d ls) _
              ((h slot).runs n more s (omega arith) (omega arith, w))
              (λ u now t r. (local name d ∷ [], r.0, (refl, tt))));
  }
