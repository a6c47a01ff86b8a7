-- ===== src/Compiler/JumpsKept.antt =====
-- src/compiler/mod.rs: jumps and patches in front of what follows, and the pools.
use y.Prelude.{
  ℕ, ◌+◌, ◌≤◌, refl, ◌<◌, ltb, if_cases, if◌then◌else◌, length, arith, Bool, Option, none, some,
}
use y.Ast.Tree.{Pattern}
use y.Vm.Chunk.{OpCode}
use y.Compiler.State.{Const, FuncCtx, Compiler, Panic, Compile, ◌>>=◌, panic, current}
use y.Compiler.Emit.{
  current_code_len, placeholder, emit_jump, patch_u16, patch_jump, add_pattern, found_or_add,
  emit_const,
}
use y.Compiler.Kept.{
  Scopes, IsScoped, IsLimit, Post, After, To, reads-Steady, Runs, Any, Steady, thence, Steady-step,
  pure-Steady, current-Steady, update-Steady,
}
use y.Compiler.EmitKept.{emit_jump-Runs, patch_jump-Runs, patch_u16-Runs, placeholder-Runs}

module _ {D : Type 0} where
  -- The same, in front of what follows.
  pub jumps :
      {B : Type 0} (n len : ℕ) (s : Scopes) (R : B → ℕ → Scopes → Type 0) (op : OpCode)
      (f : ℕ → Compile D B)
      → n ≤ len
      → IsScoped s
      → ((o more : ℕ) → len ≤ more → len ≤ o → o + 2 ≤ more → Runs n more s (f o) R)
      → Runs n len s (emit_jump op >>= f) R
  jumps n len s R op f le w k =
      thence n len s s _ R (emit_jump op) f (emit_jump-Runs n len s op le w)
        (λ o more l h. k o more l h.0 h.1)

  pub holds_place :
      {B : Type 0} (n len : ℕ) (s : Scopes) (R : B → ℕ → Scopes → Type 0) (f : ℕ → Compile D B)
      → n ≤ len
      → ((o more : ℕ) → len ≤ more → len ≤ o → o + 2 ≤ more → Runs n more s (f o) R)
      → Runs n len s (placeholder >>= f) R
  holds_place n len s R f le k =
      thence n len s s _ R placeholder f (placeholder-Runs n len s le)
        (λ o more l h. k o more l h.0 h.1)

  pub patches :
      {B : Type 0} (n len o : ℕ) (s : Scopes) (R : B → ℕ → Scopes → Type 0)
      (f : Unit {0} → Compile D B)
      → n ≤ o
      → o + 2 ≤ len
      → ((more : ℕ) → len ≤ more → Runs n more s (f tt) R)
      → Runs n len s (patch_jump o >>= f) R
  patches n len o s R f le room k =
      thence n len s s Any R (patch_jump o) f (patch_jump-Runs n len o s le room)
        (λ u more l h. k more l)

  pub patches_u16 :
      {B : Type 0} (n len o v : ℕ) (s : Scopes) (R : B → ℕ → Scopes → Type 0)
      (f : Unit {0} → Compile D B)
      → n ≤ o
      → o + 2 ≤ len
      → ((more : ℕ) → len ≤ more → Runs n more s (f tt) R)
      → Runs n len s (patch_u16 o v >>= f) R
  patches_u16 n len o v s R f le room k =
      thence n len s s Any R (patch_u16 o v) f (patch_u16-Runs n len o v s le room)
        (λ u more l h. k more l)

  pub code_len-Steady : Steady {D = D} current_code_len
  unfolding current_code_len
  code_len-Steady = current-Steady _

  -- An entry of a pool: a panic when the pool is full.
  pooled-Steady :
      {A : Type 0} (size : FuncCtx D → ℕ) (e : Panic) (more : ℕ → Compile D A)
      → ((c : Compiler D) → 255 < size c.current → IsLimit e c)
      → ((idx : ℕ) → Steady (more idx))
      → Steady (current size >>= λ idx. if ltb 255 idx then panic e else more idx)
  unfolding panic
  pooled-Steady {A = A} size e more full h = reads-Steady size _ (λ n s c le w at.
      if_cases (λ (m : Compile D A). Post (After n (To s Any) c) (m c)) (ltb 255 (size c.current))
        (λ over. full c (ground (arith, over)))
        (λ within. ((h (size c.current)).runs n _ s le w).at c at refl))

  pub add_pattern-Steady : (p : Pattern D) → Steady (add_pattern p)
  unfolding add_pattern
  add_pattern-Steady p =
      pooled-Steady (λ f. length f.patterns) _ _ (λ c h. h)
        (λ idx.
          Steady-step _ _ (update-Steady _ (λ f. (refl, refl, refl, refl, refl)))
            (λ u. pure-Steady _))

module _ {D : Type 0} (same_decimal : D → D → Bool) where
  found_or_add-Steady :
      (v : Const D) (found : Option ℕ)
      → Steady (current (λ f. length f.consts) >>= λ idx. found_or_add same_decimal v idx found)
  found_or_add-Steady v (some i) = Steady-step _ _ (current-Steady _) (λ idx. pure-Steady _)
  found_or_add-Steady v none =
      pooled-Steady (λ f. length f.consts) _ _ (λ c h. h)
        (λ idx.
          Steady-step _ _ (update-Steady _ (λ f. (refl, refl, refl, refl, refl)))
            (λ u. pure-Steady _))

  pub emit_const-Steady : (v : Const D) → Steady (emit_const same_decimal v)
  unfolding emit_const
  emit_const-Steady v = Steady-step _ _ (current-Steady _) (λ found. found_or_add-Steady v found)
