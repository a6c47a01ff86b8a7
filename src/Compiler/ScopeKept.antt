-- ===== src/Compiler/ScopeKept.antt =====
-- src/compiler/mod.rs: what scopes, locals and the resolution of names do to the scopes of a function, and to the
-- functions around it.
use y.Prelude.{
  ℕ, suc, ◌≤◌, ◌<◌, ◌≡◌, refl, sym, subst, ap, ◌∙◌, get_elem?, Text, Bool, true, false, List, [],
  ◌∷◌, ◌++◌, Option, none, some, map, length, All, arith,
}
use y.Prelude.Cases.{option_both}
use y.Compiler.State.{Local, FuncCtx, current, update}
use y.Compiler.Scope.{
  pop_scope, find_local, mark_captured, find_upvalue, begin_scope, leave_scope, end_scope,
  declare_local, without_last, pop_local, resolve_local, Resolved, with_upvalue, add_upvalue,
  captured, passed_on, resolve_upvalue_at, resolve_upvalue,
}
use y.Compiler.Kept.{
  Scopes, IsScoped, At, SameCode, Runs, To, Any, Steady, frame, thence, pure-Runs, current-Runs,
  current-Steady, update-Runs, uncaptured,
}

-- A local as it is declared.
abbrev pub local : Text → ℕ → Local
local name depth = record { name = name; depth = depth; is_captured = false }

abbrev pub AllAt : ℕ → List Local → Type 0
AllAt d ls = All (λ l. l.depth ≡ d) ls

-- The locals of a scope, and what stands behind them.
pop_scope-append :
    (d : ℕ) (new ls : List Local)
    → AllAt (suc d) new
    → All (λ l. l.depth ≤ d) ls
    → pop_scope (suc d) (new ++ ls) ≡ (length new, ls)
pop_scope-append d [] [] h w = refl
pop_scope-append d [] (l ∷ ls) h w = ground (arith, w.0)
pop_scope-append d (l ∷ new) ls h w = ground (arith, h.0, pop_scope-append d new ls h.1 w)

pop_scope-uncaptured :
    (d : ℕ) (ls : List Local)
    → pop_scope d (map uncaptured ls) ≡ ((pop_scope d ls).0, map uncaptured (pop_scope d ls).1)
pop_scope-uncaptured d [] = refl
pop_scope-uncaptured d (l ∷ ls) = ground (arith, pop_scope-uncaptured d ls)

mark-uncaptured :
    (slot : ℕ) (ls : List Local) → map uncaptured (mark_captured slot ls) ≡ map uncaptured ls
unfolding mark_captured
mark-uncaptured slot [] = refl
mark-uncaptured slot (l ∷ ls) = ground (arith, mark-uncaptured slot ls)

same_bytes :
    (n : ℕ) (code : List ℕ)
    → (length code ≤ length code) × ((i : ℕ) → i < n → get_elem? code i ≡ get_elem? code i)
same_bytes n code = (omega arith, λ i lt. refl)

tail_of :
    (l : Local) (ls gs : List Local)
    → map uncaptured gs ≡ l ∷ ls
    → map uncaptured (without_last gs) ≡ ls
tail_of l ls [] e = ap without_last e
tail_of l ls (g ∷ gs) e = ap without_last e

behind :
    (d : ℕ) (new ls gs : List Local)
    → map uncaptured gs ≡ new ++ ls
    → AllAt (suc d) new
    → IsScoped (d, ls)
    → map uncaptured (pop_scope (suc d) gs).1 ≡ ls
behind d new ls gs e h w =
    sym (ap (λ (x : ℕ × List Local). x.1) (pop_scope-uncaptured (suc d) gs))
    ∙ ap (λ x. (pop_scope (suc d) x).1) e
    ∙ ap (λ (x : ℕ × List Local). x.1) (pop_scope-append d new ls h w)

module _ {D : Type 0} where
  add_upvalue-frame :
      (is_local : Bool) (index : ℕ) (f : FuncCtx D)
      → frame (add_upvalue is_local index f).1 ≡ frame f
  unfolding add_upvalue
  add_upvalue-frame is_local index f = with_frame (find_upvalue is_local index 0 f.upvalues)
    where
      with_frame : (found : Option ℕ) → frame (with_upvalue is_local index f found).1 ≡ frame f
      with_frame none = refl
      with_frame (some i) = refl

  -- The functions around one are the same but for their upvalues, and so is the one.
  abbrev Resolves : FuncCtx D → List (FuncCtx D) → Resolved D → Type 0
  Resolves f gs r = (frame r.inner ≡ frame f) × (map frame r.outer ≡ map frame gs)

  captured-Resolves :
      (f g : FuncCtx D) (gs : List (FuncCtx D)) (slot : ℕ)
      → Resolves f (g ∷ gs) (captured f g gs slot)
  captured-Resolves f g gs slot = (
    add_upvalue-frame true slot f,
    ap (λ (ls : List Local). (record (frame g) { locals = ls }) ∷ map frame gs)
        (mark-uncaptured slot g.locals),
  )

  passed_on-Resolves :
      (f g h : FuncCtx D) (gs hs : List (FuncCtx D)) (found : Option ℕ)
      → frame h ≡ frame g
      → map frame hs ≡ map frame gs
      → Resolves f (g ∷ gs) (passed_on f h hs found)
  passed_on-Resolves f g h gs hs none e es = (refl, λ i. e i ∷ es i)
  passed_on-Resolves f g h gs hs (some uv) e es = (add_upvalue-frame false uv f, λ i. e i ∷ es i)

  resolve-Resolves :
      (name : Text) (f : FuncCtx D) (gs : List (FuncCtx D))
      → Resolves f gs (resolve_upvalue_at name f gs)
  unfolding resolve_upvalue_at
  resolve-Resolves name f [] = (refl, refl)
  resolve-Resolves name f (g ∷ gs) =
      let (e, es) = resolve-Resolves name g gs in
      option_both (Resolves f (g ∷ gs)) (find_local name g.scope_depth g.locals)
        (passed_on-Resolves f g _ gs _ _ e es) (λ slot. captured-Resolves f g gs slot)

  pub frame-At : (s : Scopes) (f g : FuncCtx D) → frame f ≡ frame g → At s g → At s f
  frame-At s f g e at = (
    ap (λ (x : FuncCtx D). x.scope_depth) e ∙ at.0,
    ap (λ (x : FuncCtx D). x.locals) e ∙ at.1,
    ap (λ (x : FuncCtx D). length x.spans) e ∙ at.2 ∙ sym (ap (λ (x : FuncCtx D). length x.code) e),
  )

  pub frame-SameCode : (n : ℕ) (f g : FuncCtx D) → frame g ≡ frame f → SameCode n f g
  frame-SameCode n f g e = (
    omega (arith, ap (λ (x : FuncCtx D). length x.code) e),
    λ i lt. ap (λ (x : FuncCtx D). get_elem? x.code i) e,
  )

  pub resolve_upvalue-Steady : (name : Text) → Steady {D = D} (resolve_upvalue name)
  unfolding resolve_upvalue
  resolve_upvalue-Steady name = record {
    runs = λ n len s le w. record {
      at = λ c at e.
          let r = resolve_upvalue_at name c.current c.enclosing in
          let (inner, outer) = resolve-Resolves name c.current c.enclosing in
          (
            (
              sym outer,
              sym (ap (λ (x : FuncCtx D). x.function_type) inner),
              frame-SameCode n c.current r.inner inner,
            ),
            (s, frame-At s r.inner c.current inner at, (refl, tt)),
          );
    };
  }

  pub resolve_local-Steady : (name : Text) → Steady {D = D} (resolve_local name)
  unfolding resolve_local
  resolve_local-Steady name = current-Steady _

  -- A scope is opened, a local declared or dropped, a scope closed.
  pub begin_scope-Runs :
      (n len d : ℕ) (ls : List Local) → Runs {D = D} n len (d, ls) begin_scope (To (suc d, ls) Any)
  unfolding begin_scope
  begin_scope-Runs n len d ls =
      update-Runs n len (d, ls) (suc d, ls) Any _
        (λ g at e. (refl, same_bytes n g.code, (ap suc at.0, at.1, at.2), tt))

  pub declare_local-Runs :
      (n len d : ℕ) (ls : List Local) (name : Text)
      → n ≤ len
      → IsScoped (d, ls)
      → Runs {D = D} n len (d, ls) (declare_local name) (To (d, local name d ∷ ls) Any)
  unfolding declare_local
  declare_local-Runs n len d ls name le w =
      thence n len (d, ls) (d, ls) Any _ (current _) _ ((current-Steady _).runs n len (d, ls) le w)
        (λ slot more l q.
          thence n more (d, ls) (d, local name d ∷ ls) Any _ (update _) _
            (update-Runs n more (d, ls) (d, local name d ∷ ls) Any _
              (λ g at e.
                (refl, same_bytes n g.code, (at.0, (λ i. local name (at.0 i) ∷ at.1 i), at.2), tt)))
            (λ u now l' q'. pure-Runs n now _ slot _ (refl, tt)))

  pub pop_local-Runs :
      (n len d : ℕ) (l : Local) (ls : List Local)
      → Runs {D = D} n len (d, l ∷ ls) pop_local (To (d, ls) Any)
  unfolding pop_local
  pop_local-Runs n len d l ls =
      update-Runs n len (d, l ∷ ls) (d, ls) Any _
        (λ g at e. (refl, same_bytes n g.code, (at.0, tail_of l ls g.locals at.1, at.2), tt))

  leave-Runs :
      (n len d : ℕ) (new ls : List Local)
      → AllAt (suc d) new
      → IsScoped (d, ls)
      → Runs {D = D} n len (suc d, new ++ ls) (leave_scope (suc d)) (To (d, ls) Any)
  leave-Runs n len d new ls h w =
      thence n len (suc d, new ++ ls) (suc d, new ++ ls) Any _ (current _) _
        (current-Runs n len (suc d, new ++ ls) _)
        (λ count more l q.
          thence n more (suc d, new ++ ls) (d, ls) Any _ (update _) _
            (update-Runs n more (suc d, new ++ ls) (d, ls) Any _
              (λ g at e. (
                refl,
                same_bytes n g.code,
                (
                  refl,
                  ap (λ x. map uncaptured (pop_scope x g.locals).1) at.0
                      ∙ behind d new ls g.locals at.1 h w,
                  at.2,
                ),
                tt,
              )))
            (λ u now l' q'. pure-Runs n now (d, ls) count _ (refl, tt)))

  pub end_scope-Runs :
      (n len d : ℕ) (new ls : List Local)
      → AllAt (suc d) new
      → IsScoped (d, ls)
      → Runs {D = D} n len (suc d, new ++ ls) end_scope (To (d, ls) Any)
  unfolding end_scope current
  end_scope-Runs n len d new ls h w =
      thence n len (suc d, new ++ ls) (suc d, new ++ ls) (λ v more. v ≡ suc d) _ (current _) _
        (record {
          at = λ c at e.
              ((refl, refl, same_bytes n c.current.code), ((suc d, new ++ ls), at, (refl, at.0)));
        })
        (λ v more l e.
          subst (λ x. Runs {D = D} n more (suc d, new ++ ls) (leave_scope x) (To (d, ls) Any))
            (sym e) (leave-Runs n more d new ls h w))
