-- ===== src/Compiler/Kept.antt =====
-- src/compiler/mod.rs: what a part of the compiler does to the state. `Runs n len s m Q`: from a state
-- with scopes `s` and code of length `len`, `m` ends or finds a pool full; it keeps the first `n` bytes
-- of the code and the functions around the current one, and leaves scopes and a length in `Q`.
use y.Prelude.{
  ℕ, ◌≤◌, ◌<◌, ◌≡◌, refl, sym, ap, subst, ◌∙◌, Text, false, List, [], map, length, get_elem?, All,
  none, arith,
}
use y.Compiler.Forms.{binary}
use y.Compiler.State.{
  Local, FuncCtx, Compiler, Panic, too_many_constants, too_many_patterns, short_circuit, Outcome,
  done, panicked, Compile, and_then, ◌>>=◌, pure, panic, current, update, tables, set_tables,
}

abbrev pub uncaptured : Local → Local
uncaptured l = record l { is_captured = false }

-- The depth, and the locals with their depths.
abbrev pub Scopes : Type 0
Scopes = ℕ × List Local

abbrev pub IsScoped : Scopes → Type 0
IsScoped s = All (λ l. l.depth ≤ s.0) s.1

-- The panics there are: a pool that is full in the state it happens in, and an operator without an
-- instruction, which the parser puts in no compound assignment.
abbrev pub IsLimit : {D : Type 0} → Panic → Compiler D → Type 0
IsLimit too_many_constants c = 255 < length c.current.consts
IsLimit too_many_patterns c = 255 < length c.current.patterns
IsLimit (short_circuit op) c = binary op ≡ none
IsLimit _ c = ⊥

-- What leaves the scopes `t`.
abbrev pub To : {A : Type 0} → Scopes → (A → ℕ → Type 0) → A → ℕ → Scopes → Type 0
To t P a len t' = (t ≡ t') × P a len

abbrev pub Any : {A : Type 0} → A → ℕ → Type 0
Any a len = Unit

module _ {D : Type 0} where
  -- A function but for its upvalues and which of its locals are captured.
  abbrev pub frame : FuncCtx D → FuncCtx D
  frame f = record f { locals = map uncaptured f.locals; upvalues = []; upvalue_count = 0 }

  abbrev pub At : Scopes → FuncCtx D → Type 0
  At s f =
      (f.scope_depth ≡ s.0) × (map uncaptured f.locals ≡ s.1) × (length f.spans ≡ length f.code)

  abbrev pub SameCode : ℕ → FuncCtx D → FuncCtx D → Type 0
  SameCode n f g =
      (length f.code ≤ length g.code) × ((i : ℕ) → i < n → get_elem? g.code i ≡ get_elem? f.code i)

  abbrev pub Kept : ℕ → Compiler D → Compiler D → Type 0
  Kept n c d =
      (map frame c.enclosing ≡ map frame d.enclosing)
      × (c.current.function_type ≡ d.current.function_type)
      × SameCode n c.current d.current

  abbrev pub Post : {A : Type 0} → (A → Compiler D → Type 0) → Outcome D A → Type 0
  Post Q (done a c) = Q a c
  Post Q (panicked e c) = IsLimit e c

  abbrev pub After :
      {A : Type 0} → ℕ → (A → ℕ → Scopes → Type 0) → Compiler D → A → Compiler D → Type 0
  After n Q c a d = Kept n c d × ((t : Scopes) × At t d.current × Q a (length d.current.code) t)

  pub record Runs {A : Type 0} (n len : ℕ) (s : Scopes) (m : Compile D A)
      (Q : A → ℕ → Scopes → Type 0) : Type 0 where
    pub at :
        (c : Compiler D) → At s c.current → length c.current.code ≡ len → Post (After n Q c) (m c)

  pub Kept-trans : (n : ℕ) (c d e : Compiler D) → Kept n c d → Kept n d e → Kept n c e
  Kept-trans n c d e h k =
      (h.0 ∙ k.0, h.1 ∙ k.1, (omega (arith, h.2.0, k.2.0), λ i lt. k.2.1 i lt ∙ h.2.1 i lt))

  Post-mono :
      {A : Type 0} (P Q : A → Compiler D → Type 0) (o : Outcome D A)
      → ((a : A) (c : Compiler D) → P a c → Q a c)
      → Post P o
      → Post Q o
  Post-mono P Q (done a c) f h = f a c h
  Post-mono P Q (panicked e c) f h = h

  and_then-After :
      {A B : Type 0} (n len : ℕ) (c : Compiler D) (Q : A → ℕ → Scopes → Type 0)
      (R : B → ℕ → Scopes → Type 0) (o : Outcome D A) (f : A → Compile D B)
      → length c.current.code ≡ len
      → Post (After n Q c) o
      → ((a : A) (more : ℕ) (t : Scopes) → len ≤ more → Q a more t → Runs n more t (f a) R)
      → Post (After n R c) (and_then o f)
  and_then-After n len c Q R (done a d) f e (kept, (t, at, q)) k =
      Post-mono (After n R d) (After n R c) (f a d) (λ b x h. (Kept-trans n c d x kept h.0, h.1))
        ((k a (length d.current.code) t (omega (arith, e, kept.2.0)) q).at d at refl)
  and_then-After n len c Q R (panicked e d) f l h k = h

  pub mono :
      {A : Type 0} (n len : ℕ) (s : Scopes) (Q R : A → ℕ → Scopes → Type 0) (m : Compile D A)
      → Runs n len s m Q
      → ((a : A) (more : ℕ) (t : Scopes) → Q a more t → R a more t)
      → Runs n len s m R
  mono n len s Q R m h k = record {
    at = λ c at e.
        Post-mono (After n Q c) (After n R c) (m c) (λ a d x. (x.0, (x.1.0, x.1.1, k a _ _ x.1.2)))
          (h.at c at e);
  }

  pub step :
      {A B : Type 0} (n len : ℕ) (s : Scopes) (Q : A → ℕ → Scopes → Type 0)
      (R : B → ℕ → Scopes → Type 0) (m : Compile D A) (f : A → Compile D B)
      → Runs n len s m Q
      → ((a : A) (more : ℕ) (t : Scopes) → len ≤ more → Q a more t → Runs n more t (f a) R)
      → Runs n len s (m >>= f) R
  unfolding ◌>>=◌
  step n len s Q R m f h k = record {
    at = λ c at e. and_then-After n len c Q R (m c) f e (h.at c at e) k;
  }

  pub thence :
      {A B : Type 0} (n len : ℕ) (s t : Scopes) (P : A → ℕ → Type 0) (R : B → ℕ → Scopes → Type 0)
      (m : Compile D A) (f : A → Compile D B)
      → Runs n len s m (To t P)
      → ((a : A) (more : ℕ) → len ≤ more → P a more → Runs n more t (f a) R)
      → Runs n len s (m >>= f) R
  thence n len s t P R m f h k =
      step n len s (To t P) R m f h
        (λ a more t' le q. subst (λ x. Runs n more x (f a) R) q.0 (k a more le q.1))

  -- It keeps the scopes, whatever they are.
  pub record Steady {A : Type 0} (m : Compile D A) : Type 0 where
    pub runs : (n len : ℕ) (s : Scopes) → n ≤ len → IsScoped s → Runs n len s m (To s Any)

  pub steadily :
      {A B : Type 0} (n len : ℕ) (s : Scopes) (R : B → ℕ → Scopes → Type 0) (m : Compile D A)
      (f : A → Compile D B)
      → Steady m
      → n ≤ len
      → IsScoped s
      → ((a : A) (more : ℕ) → len ≤ more → Runs n more s (f a) R)
      → Runs n len s (m >>= f) R
  steadily n len s R m f h le w k =
      thence n len s s Any R m f (h.runs n len s le w) (λ a more l q. k a more l)

  pub Steady-step :
      {A B : Type 0} (m : Compile D A) (f : A → Compile D B)
      → Steady m
      → ((a : A) → Steady (f a))
      → Steady (m >>= f)
  Steady-step m f h k = record {
    runs = λ n len s le w.
        steadily n len s (To s Any) m f h le w (λ a more l. (k a).runs n more s (omega arith) w);
  }

  same_code : (n : ℕ) (f : FuncCtx D) → SameCode n f f
  same_code n f = (omega arith, λ i lt. refl)

  pub pure-Runs :
      {A : Type 0} (n len : ℕ) (s : Scopes) (a : A) (Q : A → ℕ → Scopes → Type 0)
      → Q a len s
      → Runs n len s (pure a) Q
  unfolding pure
  pure-Runs n len s a Q q = record {
    at = λ c at e. ((refl, refl, same_code n c.current), (s, at, subst (λ l. Q a l s) (sym e) q));
  }

  pub pure-Steady : {A : Type 0} (a : A) → Steady (pure a)
  pure-Steady a = record { runs = λ n len s le w. pure-Runs n len s a (To s Any) (refl, tt) }

  pub panic-Steady :
      {A : Type 0} (e : Panic) → ((c : Compiler D) → IsLimit e c) → Steady (panic {A = A} e)
  unfolding panic
  panic-Steady e l = record { runs = λ n len s le w. record { at = λ c at h. l c } }

  pub current-Runs :
      {A : Type 0} (n len : ℕ) (s : Scopes) (f : FuncCtx D → A)
      → Runs n len s (current f) (To s Any)
  unfolding current
  current-Runs n len s f = record {
    at = λ c at e. ((refl, refl, same_code n c.current), (s, at, (refl, tt)));
  }

  pub current-Steady : {A : Type 0} (f : FuncCtx D → A) → Steady (current f)
  current-Steady f = record { runs = λ n len s le w. current-Runs n len s f }

  -- What follows a read, by what it does in the state that is read.
  pub reads-Steady :
      {A B : Type 0} (g : FuncCtx D → A) (k : A → Compile D B)
      → ((n : ℕ) (s : Scopes) (c : Compiler D)
          → n ≤ length c.current.code
          → IsScoped s
          → At s c.current
          → Post (After n (To s Any) c) (k (g c.current) c))
      → Steady (current g >>= k)
  unfolding current ◌>>=◌
  reads-Steady g k h = record {
    runs = λ n len s le w. record { at = λ c at e. h n s c (omega (arith, e, le)) w at };
  }

  pub tables-Steady : {A : Type 0} (f : Compiler D → A) → Steady (tables f)
  unfolding tables
  tables-Steady f = record {
    runs = λ n len s le w. record {
      at = λ c at e. ((refl, refl, same_code n c.current), (s, at, (refl, tt)));
    };
  }

  pub set_tables-Steady :
      (variants : List (Text × ℕ)) (structs : List Text)
      → Steady (set_tables {D = D} variants structs)
  unfolding set_tables
  set_tables-Steady variants structs = record {
    runs = λ n len s le w. record {
      at = λ c at e. ((refl, refl, same_code n c.current), (s, at, (refl, tt)));
    };
  }

  -- An update of the current function, by what it does to it.
  pub update-Runs :
      (n len : ℕ) (s t : Scopes) (P : Unit {0} → ℕ → Type 0) (h : FuncCtx D → FuncCtx D)
      → ((f : FuncCtx D)
          → At s f
          → length f.code ≡ len
          → (f.function_type ≡ (h f).function_type)
            × SameCode n f (h f)
            × At t (h f)
            × P tt (length (h f).code))
      → Runs n len s (update h) (To t P)
  unfolding update
  update-Runs n len s t P h k = record {
    at = λ c at e. let r = k c.current at e in ((refl, r.0, r.1), (t, r.2, (refl, r.3)));
  }

  -- One that touches neither the code nor the scopes.
  abbrev pub Outside : FuncCtx D → FuncCtx D → Type 0
  Outside f g =
      (f.function_type ≡ g.function_type)
      × (f.code ≡ g.code)
      × (f.spans ≡ g.spans)
      × (f.scope_depth ≡ g.scope_depth)
      × (map uncaptured f.locals ≡ map uncaptured g.locals)

  pub Outside-SameCode : (n : ℕ) (f g : FuncCtx D) → Outside f g → SameCode n f g
  Outside-SameCode n f g h =
      (omega (arith, ap length h.1), λ i lt. ap (λ x. get_elem? x i) (sym h.1))

  pub Outside-At : (s : Scopes) (f g : FuncCtx D) → Outside f g → At s f → At s g
  Outside-At s f g h at =
      (sym h.3 ∙ at.0, sym h.4 ∙ at.1, sym (ap length h.2) ∙ at.2 ∙ ap length h.1)

  pub update-Steady :
      (h : FuncCtx D → FuncCtx D) → ((f : FuncCtx D) → Outside f (h f)) → Steady (update h)
  update-Steady h k = record {
    runs = λ n len s le w.
        update-Runs n len s s Any h (λ f at e.
          ((k f).0, Outside-SameCode n f (h f) (k f), Outside-At s f (h f) (k f) at, tt));
  }
