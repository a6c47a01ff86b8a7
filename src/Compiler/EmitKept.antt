-- ===== src/Compiler/EmitKept.antt =====
-- src/compiler/mod.rs: emission only adds bytes, and a patch changes only the two bytes at its offset.
use y.Prelude.{
  ℕ, zero, suc, ◌+◌, ◌/◌, ◌%◌, ◌≤◌, ◌<◌, ◌≡◌, refl, sym, ap, ◌∙◌, ltb, if_cases, true, List, [],
  ◌∷◌, ◌++◌, length, length-append, length-set, set, get_elem?, get_elem?-set_ne, arith,
}
use y.Vm.Chunk.{OpCode, write_u16}
use y.Compiler.State.{FuncCtx, Compile, current}
use y.Compiler.Emit.{
  dummies, push_bytes, emit_bytes, emit_op, emit_u8, emit_u16, current_code_len, placeholder,
  emit_jump, patched, patch_within, patch_u16, patch_jump, emit_loop,
}
use y.Compiler.Kept.{
  mono, Scopes, IsScoped, At, SameCode, Runs, To, Any, Steady, thence, Steady-step, pure-Runs,
  update-Runs,
}

get_elem?-append :
    {A : Type 0} (xs ys : List A) (i : ℕ) → i < length xs → get_elem? (xs ++ ys) i ≡ get_elem? xs i
get_elem?-append [] ys i h = absurd (omega arith)
get_elem?-append (x ∷ xs) ys zero h = refl
get_elem?-append (x ∷ xs) ys (suc i) h = get_elem?-append xs ys i (omega arith)

length-dummies : (bytes : List ℕ) → length (dummies bytes) ≡ length bytes
length-dummies [] = refl
length-dummies (b ∷ bs) = ap suc (length-dummies bs)

-- Two bytes to patch, behind those that were there.
abbrev pub Pending : ℕ → ℕ → ℕ → Type 0
Pending len offset more = (len ≤ offset) × (offset + 2 ≤ more)

module _ {D : Type 0} where
  push-SameCode :
      (n : ℕ) (bytes : List ℕ) (f : FuncCtx D)
      → n ≤ length f.code
      → SameCode n f (push_bytes bytes f)
  push-SameCode n bytes f le = (
    omega (arith, length-append f.code bytes),
    λ i lt. get_elem?-append f.code bytes i (omega arith),
  )

  push-At : (s : Scopes) (bytes : List ℕ) (f : FuncCtx D) → At s f → At s (push_bytes bytes f)
  push-At s bytes f at = (
    at.0,
    at.1,
    omega (
      arith,
      length-append f.code bytes,
      length-append f.spans (dummies bytes),
      length-dummies bytes,
      at.2,
    ),
  )

  pub emit_bytes-Runs :
      (n len : ℕ) (s : Scopes) (bytes : List ℕ)
      → n ≤ len
      → Runs {D = D} n len s (emit_bytes bytes) (To s (λ u more. more ≡ len + length bytes))
  unfolding emit_bytes
  emit_bytes-Runs n len s bytes le = update-Runs n len s s _ (push_bytes bytes) (λ f at e. (
    refl,
    push-SameCode n bytes f (omega arith),
    push-At s bytes f at,
    omega (arith, length-append f.code bytes, e),
  ))

  pub weaken :
      {A : Type 0} (n len : ℕ) (s t : Scopes) (P : A → ℕ → Type 0) (m : Compile D A)
      → Runs n len s m (To t P)
      → Runs n len s m (To t Any)
  weaken n len s t P m h = mono n len s (To t P) (To t Any) m h (λ a more t' q. (q.0, tt))

  pub emit_bytes-Steady : (bytes : List ℕ) → Steady {D = D} (emit_bytes bytes)
  emit_bytes-Steady bytes = record {
    runs = λ n len s le w. weaken n len s s _ (emit_bytes bytes) (emit_bytes-Runs n len s bytes le);
  }

  pub emit_op-Steady : (op : OpCode) → Steady {D = D} (emit_op op)
  unfolding emit_op
  emit_op-Steady op = emit_bytes-Steady _

  pub emit_u8-Steady : (v : ℕ) → Steady {D = D} (emit_u8 v)
  unfolding emit_u8
  emit_u8-Steady v = emit_bytes-Steady _

  pub emit_u16-Steady : (v : ℕ) → Steady {D = D} (emit_u16 v)
  unfolding emit_u16
  emit_u16-Steady v = emit_bytes-Steady _

  pub emit_loop-Steady : (start : ℕ) → Steady {D = D} (emit_loop start)
  unfolding emit_loop
  emit_loop-Steady start = Steady-step _ _ (emit_op-Steady _) (λ u. emit_u16-Steady _)

  pub code_len-Runs :
      (n len : ℕ) (s : Scopes)
      → Runs {D = D} n len s current_code_len (To s (λ l more. (l ≡ len) × (more ≡ len)))
  unfolding current_code_len current
  code_len-Runs n len s = record {
    at = λ c at e. ((refl, refl, (omega arith, λ i lt. refl)), (s, at, (refl, (e, e))));
  }

  pub placeholder-Runs :
      (n len : ℕ) (s : Scopes) → n ≤ len → Runs {D = D} n len s placeholder (To s (Pending len))
  unfolding placeholder emit_u16 write_u16
  placeholder-Runs n len s le =
      thence n len s s _ _ current_code_len _ (code_len-Runs n len s) (λ offset more l h.
        thence n more s s _ _ (emit_bytes _) _ (emit_bytes-Runs n more s _ (omega arith))
          (λ u now l' h'.
            pure-Runs n now s offset _ (refl, (omega (arith, h), omega (arith, h, h')))))

  pub emit_jump-Runs :
      (n len : ℕ) (s : Scopes) (op : OpCode)
      → n ≤ len
      → IsScoped s
      → Runs {D = D} n len s (emit_jump op) (To s (Pending len))
  unfolding emit_jump
  emit_jump-Runs n len s op le w =
      thence n len s s Any _ (emit_op op) _ ((emit_op-Steady op).runs n len s le w) (λ u more l h.
        mono n more s (To s (Pending more)) (To s (Pending len)) placeholder
          (placeholder-Runs n more s (omega arith))
          (λ o now t q. (q.0, (omega (arith, q.1, l), q.1.1))))

  length-patched :
      (offset value : ℕ) (f : FuncCtx D) → length (patched offset value f).code ≡ length f.code
  length-patched offset value f =
      length-set (set f.code offset (value % 256)) (offset + 1) (value / 256)
      ∙ length-set f.code offset (value % 256)

  patched-SameCode :
      (n offset value : ℕ) (f : FuncCtx D) → n ≤ offset → SameCode n f (patched offset value f)
  patched-SameCode n offset value f le = (
    omega (arith, length-patched offset value f),
    λ i lt.
        get_elem?-set_ne (set f.code offset (value % 256)) (value / 256) (λ e. omega (arith, e))
        ∙ get_elem?-set_ne f.code (value % 256) (λ e. omega (arith, e)),
  )

  pub patch_u16-Runs :
      (n len offset value : ℕ) (s : Scopes)
      → n ≤ offset
      → offset + 2 ≤ len
      → Runs {D = D} n len s (patch_u16 offset value) (To s Any)
  unfolding patch_u16
  patch_u16-Runs n len offset value s le room =
      thence n len s s _ _ current_code_len _ (code_len-Runs n len s) (λ l more le' h.
        if_cases (λ (m : Compile D (Unit {0})). Runs n more s m (To s Any)) (ltb (offset + 1) l)
          (λ e. inside more) (λ e. absurd (ground (arith, e, h, room))))
    where
      inside : (more : ℕ) → Runs {D = D} n more s (patch_within offset value true) (To s Any)
      inside more = update-Runs n more s s Any (patched offset value) (λ f at e. (
        refl,
        patched-SameCode n offset value f le,
        (at.0, at.1, at.2 ∙ sym (length-patched offset value f)),
        tt,
      ))

  pub patch_jump-Runs :
      (n len offset : ℕ) (s : Scopes)
      → n ≤ offset
      → offset + 2 ≤ len
      → Runs {D = D} n len s (patch_jump offset) (To s Any)
  unfolding patch_jump
  patch_jump-Runs n len offset s le room =
      thence n len s s _ _ current_code_len _ (code_len-Runs n len s)
        (λ l more le' h. patch_u16-Runs n more offset _ s le (omega arith))
