-- ===== src/Compiler/Upvalues.antt =====
-- src/compiler/mod.rs: a name that is resolved to an upvalue leads, from function to function, to the innermost
-- local of that name around it.
use y.Prelude.{
  ℕ, zero, suc, ◌+◌, ◌≤◌, ◌≡◌, leb, same_text, same_text_refl, same_text→≡, All, if_cases, ◌==◌,
  ==→≡, ◌&&◌, refl, sym, ap, ◌∙◌, if◌then◌else◌, Text, Bool, true, false, List, [], ◌∷◌, ◌++◌,
  Option, none, some, length, get_elem?, arith,
}
use y.Compiler.State.{Local, UpvalueInfo, FuncCtx}
use y.Compiler.Scope.{
  same_bool, find_local, mark_captured, find_upvalue, Resolved, with_upvalue, add_upvalue, captured,
  passed_on, resolve_upvalue_at,
}

-- A local of a function further out: how many functions away, and its slot.
abbrev pub Place : Type 0
Place = ℕ × ℕ

abbrev pub farther : Option Place → Option Place
farther none = none
farther (some p) = some (suc p.0, p.1)

-- The place that a descriptor stands for, by those of the next function's upvalues.
abbrev through : (ℕ → Option Place) → Option UpvalueInfo → Option Place
through inner none = none
through inner (some uv) = if uv.is_local then some (0, uv.index) else farther (inner uv.index)

abbrev descriptor : Bool → ℕ → UpvalueInfo
descriptor b x = record { is_local = b; index = x }

same_bool→≡ : (a b : Bool) → same_bool a b ≡ true → a ≡ b
same_bool→≡ true b h = sym h
same_bool→≡ false true h = h
same_bool→≡ false false h = refl

both_true : (a b : Bool) → (a && b) ≡ true → (a ≡ true) × (b ≡ true)
both_true true b h = (refl, h)
both_true false b h = absurd (ground (arith, h))

abbrev FoundAt : Bool → ℕ → ℕ → ℕ → List UpvalueInfo → Type 0
FoundAt b x i k uvs = (m : ℕ) × (k ≡ i + m) × (get_elem? uvs m ≡ some (descriptor b x))

found_here :
    (b : Bool) (x i k : ℕ) (uv : UpvalueInfo) (uvs : List UpvalueInfo) (same : Bool)
    → (same ≡ true → uv ≡ descriptor b x)
    → (find_upvalue b x (suc i) uvs ≡ some k → FoundAt b x (suc i) k uvs)
    → (if same then some i else find_upvalue b x (suc i) uvs) ≡ some k
    → FoundAt b x i k (uv ∷ uvs)
found_here b x i k uv uvs true e ih h = (0, ground (arith, h), ap some (e refl))
found_here b x i k uv uvs false e ih h = let (m, at, got) = ih h in (suc m, omega (arith, at), got)

found_at :
    (b : Bool) (x i k : ℕ) (uvs : List UpvalueInfo)
    → find_upvalue b x i uvs ≡ some k
    → FoundAt b x i k uvs
unfolding find_upvalue
found_at b x i k [] h = absurd (ground (arith, h))
found_at b x i k (uv ∷ uvs) h =
    found_here b x i k uv uvs (same_bool uv.is_local b && uv.index == x)
      (λ t.
        let (l, r) = both_true (same_bool uv.is_local b) (uv.index == x) t in
        λ j. descriptor (same_bool→≡ uv.is_local b l j) (==→≡ uv.index x r j))
      (found_at b x (suc i) k uvs) h

at_end :
    (uvs : List UpvalueInfo) (uv : UpvalueInfo) → get_elem? (uvs ++ uv ∷ []) (length uvs) ≡ some uv
at_end [] uv = refl
at_end (u ∷ us) uv = at_end us uv

before_end :
    (uvs : List UpvalueInfo) (uv v : UpvalueInfo) (j : ℕ)
    → get_elem? uvs j ≡ some v
    → get_elem? (uvs ++ uv ∷ []) j ≡ some v
before_end [] uv v j h = absurd (ground (arith, h))
before_end (u ∷ us) uv v zero h = h
before_end (u ∷ us) uv v (suc j) h = before_end us uv v j h

-- A local that a name can stand for at a depth of scopes.
abbrev pub IsLocal : Text → ℕ → Local → Type 0
IsLocal name depth l = (l.name ≡ name) × (l.depth ≤ depth)

-- The latest such local, the locals being listed from the latest on, by its slot; or that there is none.
abbrev pub IsLatest : Text → ℕ → List Local → Option ℕ → Type 0
IsLatest name depth ls none = All (λ l. ¬ IsLocal name depth l) ls
IsLatest name depth ls (some slot) =
    (later : List Local) × (l : Local) × (earlier : List Local) × (ls ≡ later ++ l ∷ earlier)
    × IsLocal name depth l
    × All (λ k. ¬ IsLocal name depth k) later
    × (slot ≡ length earlier)

is_local :
    (name : Text) (depth : ℕ) (l : Local)
    → (same_text l.name name && leb l.depth depth) ≡ true
    → IsLocal name depth l
is_local name depth l e =
    let (same, within) = both_true (same_text l.name name) (leb l.depth depth) e in
    (same_text→≡ l.name name same, ground (arith, within))

not_local :
    (name : Text) (depth : ℕ) (l : Local)
    → (same_text l.name name && leb l.depth depth) ≡ false
    → ¬ IsLocal name depth l
not_local name depth l e (same, within) =
    let found : same_text l.name name ≡ true =
      ap (λ s. same_text s name) same ∙ same_text_refl name in
    ground (arith, e, found, within)

find_local-IsLatest :
    (name : Text) (depth : ℕ) (ls : List Local) → IsLatest name depth ls (find_local name depth ls)
unfolding find_local
find_local-IsLatest name depth [] = tt
find_local-IsLatest name depth (l ∷ ls) =
    if_cases (IsLatest name depth (l ∷ ls)) (same_text l.name name && leb l.depth depth)
      (λ e. ([], l, ls, refl, is_local name depth l e, tt, refl))
      (λ e.
        behind (find_local name depth ls) (not_local name depth l e)
          (find_local-IsLatest name depth ls))
  where
    behind :
        (o : Option ℕ)
        → ¬ IsLocal name depth l
        → IsLatest name depth ls o
        → IsLatest name depth (l ∷ ls) o
    behind none n h = (n, h)
    behind (some slot) n (later, k, earlier, split, is, not_later, at) =
        (l ∷ later, k, earlier, ap (λ ks. l ∷ ks) split, is, (n, not_later), at)

module _ {D : Type 0} where
  -- The local that a name stands for in the functions around, the innermost first: the latest one of the first
  -- function that has one.
  pub data Nearest (name : Text) : List (FuncCtx D) → Option Place → Type 0 where
    nowhere : Nearest name [] none
    in_first :
        {g : FuncCtx D} {gs : List (FuncCtx D)} (slot : ℕ)
        → IsLatest name g.scope_depth g.locals (some slot)
        → Nearest name (g ∷ gs) (some (0, slot))
    in_rest :
        {g : FuncCtx D} {gs : List (FuncCtx D)} (place : Option Place)
        → IsLatest name g.scope_depth g.locals none
        → Nearest name gs place
        → Nearest name (g ∷ gs) (farther place)

  -- The same by a search.
  unfoldable pub nearest : Text → List (FuncCtx D) → Option Place
  nearest name [] = none
  nearest name (g ∷ gs) =
      let rest = nearest name gs in
      elim (find_local name g.scope_depth g.locals) [
        | none ↦ farther rest
        | some slot ↦ some (0, slot)
      ]

  nearest-Nearest : (name : Text) (gs : List (FuncCtx D)) → Nearest name gs (nearest name gs)
  unfolding nearest
  nearest-Nearest name [] = nowhere
  nearest-Nearest name (g ∷ gs) =
      by_local (find_local name g.scope_depth g.locals)
        (find_local-IsLatest name g.scope_depth g.locals) (nearest-Nearest name gs)
    where
      by_local :
          (o : Option ℕ)
          → IsLatest name g.scope_depth g.locals o
          → Nearest name gs (nearest name gs)
          → Nearest name
              (g ∷ gs)
              (elim o [ none ↦ farther (nearest name gs) | some slot ↦ some (0, slot) ])
      by_local none h rest = in_rest (nearest name gs) h rest
      by_local (some slot) h rest = in_first slot h

  -- The local that an upvalue of a function stands for, by the descriptors.
  unfoldable pub follow : FuncCtx D → List (FuncCtx D) → ℕ → Option Place
  follow f [] i = none
  follow f (g ∷ gs) i = through (follow g gs) (get_elem? f.upvalues i)

  -- The answer of a resolution, by the local that is meant.
  abbrev pub Finds : Option Place → Resolved D → Type 0
  Finds none r = r.found ≡ none
  Finds (some p) r = (i : ℕ) × (r.found ≡ some i) × (follow r.inner r.outer i ≡ some p)

  -- What an upvalue stood for before, it stands for still.
  abbrev pub Conserves : FuncCtx D → List (FuncCtx D) → Resolved D → Type 0
  Conserves f gs r =
      (j : ℕ) (p : Place) → follow f gs j ≡ some p → follow r.inner r.outer j ≡ some p

  -- A descriptor is found or added, and the others keep their numbers.
  abbrev Has : Bool → ℕ → FuncCtx D → ℕ × FuncCtx D → Type 0
  Has b x f r =
      (get_elem? r.1.upvalues r.0 ≡ some (descriptor b x))
      × ((j : ℕ) (uv : UpvalueInfo)
          → get_elem? f.upvalues j ≡ some uv
          → get_elem? r.1.upvalues j ≡ some uv)

  add_upvalue-Has : (b : Bool) (x : ℕ) (f : FuncCtx D) → Has b x f (add_upvalue b x f)
  unfolding add_upvalue
  add_upvalue-Has b x f =
      by_search (find_upvalue b x 0 f.upvalues) (λ k e. found_at b x 0 k f.upvalues e)
    where
      get_at : (k m : ℕ) → k ≡ m → get_elem? f.upvalues k ≡ get_elem? f.upvalues m
      get_at k m e = ap (get_elem? f.upvalues) e

      by_search :
          (o : Option ℕ)
          → ((k : ℕ) → o ≡ some k → FoundAt b x 0 k f.upvalues)
          → Has b x f (with_upvalue b x f o)
      by_search none h = (at_end f.upvalues _, λ j uv e. before_end f.upvalues _ uv j e)
      by_search (some k) h =
          let (m, same, e) = h k refl in (get_at k m (omega (arith, same)) ∙ e, λ j uv e. e)

  -- An upvalue that there was, in the function and those around it as they are now.
  through_kept :
      (f f' : FuncCtx D) (inner inner' : ℕ → Option Place) (j : ℕ) (p : Place)
      → ((uv : UpvalueInfo) → get_elem? f.upvalues j ≡ some uv → get_elem? f'.upvalues j ≡ some uv)
      → ((i : ℕ) (q : Place) → inner i ≡ some q → inner' i ≡ some q)
      → through inner (get_elem? f.upvalues j) ≡ some p
      → through inner' (get_elem? f'.upvalues j) ≡ some p
  through_kept f f' inner inner' j p up inside h = by_uv (get_elem? f.upvalues j) up h
    where
      farther_kept :
          (a b : Option Place)
          → ((q : Place) → a ≡ some q → b ≡ some q)
          → farther a ≡ some p
          → farther b ≡ some p
      farther_kept none b k h = absurd (ground (arith, h))
      farther_kept (some q) b k h = ap farther (k q refl) ∙ h

      by_flag :
          (uv : UpvalueInfo) (flag : Bool)
          → (if flag then some (0, uv.index) else farther (inner uv.index)) ≡ some p
          → (if flag then some (0, uv.index) else farther (inner' uv.index)) ≡ some p
      by_flag uv true h = h
      by_flag uv false h = farther_kept (inner uv.index) (inner' uv.index) (inside uv.index) h

      by_uv :
          (o : Option UpvalueInfo)
          → ((uv : UpvalueInfo) → o ≡ some uv → get_elem? f'.upvalues j ≡ some uv)
          → through inner o ≡ some p
          → through inner' (get_elem? f'.upvalues j) ≡ some p
      by_uv none k h = absurd (ground (arith, h))
      by_uv (some uv) k h = ap (through inner') (k uv refl) ∙ by_flag uv uv.is_local h

  -- The captured flags do not count.
  follow_marked :
      (g : FuncCtx D) (ls : List Local) (gs : List (FuncCtx D)) (j : ℕ) (p : Place)
      → follow g gs j ≡ some p
      → follow (record g { locals = ls }) gs j ≡ some p
  unfolding follow
  follow_marked g ls [] j p h = h
  follow_marked g ls (k ∷ ks) j p h = h

  abbrev Resolves : Option Place → FuncCtx D → List (FuncCtx D) → Resolved D → Type 0
  Resolves near f gs r = Finds near r × Conserves f gs r

  captured-Resolves :
      (f g : FuncCtx D) (gs : List (FuncCtx D)) (slot : ℕ)
      → Resolves (some (0, slot)) f (g ∷ gs) (captured f g gs slot)
  unfolding follow
  captured-Resolves f g gs slot =
      let has = add_upvalue-Has true slot f in
      let added = add_upvalue true slot f in
      let ls = mark_captured slot g.locals in
      (
        (added.0, refl, ap (through (follow (record g { locals = ls }) gs)) has.0),
        λ j p h.
            through_kept f added.1 (follow g gs) (follow (record g { locals = ls }) gs) j p
              (has.1 j) (λ i q e. follow_marked g ls gs i q e) h,
      )

  passed_on-Resolves :
      (f g h : FuncCtx D) (gs hs : List (FuncCtx D)) (near : Option Place) (found : Option ℕ)
      → Finds near (record { found = found; inner = h; outer = hs })
      → ((i : ℕ) (q : Place) → follow g gs i ≡ some q → follow h hs i ≡ some q)
      → Resolves (farther near) f (g ∷ gs) (passed_on f h hs found)
  unfolding follow
  passed_on-Resolves f g h gs hs none none e k =
      (refl, λ j p x. through_kept f f (follow g gs) (follow h hs) j p (λ uv y. y) k x)
  passed_on-Resolves f g h gs hs none (some uv) e k = absurd (ground (arith, e))
  passed_on-Resolves f g h gs hs (some p) none e k = absurd (ground (arith, e.1))
  passed_on-Resolves f g h gs hs (some p) (some uv) (i, e, at) k =
      let has = add_upvalue-Has false uv f in
      let added = add_upvalue false uv f in
      let same : uv ≡ i = ground (arith, e) in
      (
        (
          added.0,
          refl,
          ap (through (follow h hs)) has.0 ∙ ap (λ x. farther (follow h hs x)) same ∙ ap farther at,
        ),
        λ j q x. through_kept f added.1 (follow g gs) (follow h hs) j q (has.1 j) k x,
      )

  resolve_upvalue_at-Resolves :
      (name : Text) (f : FuncCtx D) (gs : List (FuncCtx D))
      → Resolves (nearest name gs) f gs (resolve_upvalue_at name f gs)
  unfolding resolve_upvalue_at nearest
  resolve_upvalue_at-Resolves name f [] = (refl, λ j p h. h)
  resolve_upvalue_at-Resolves name f (g ∷ gs) =
      by_local (find_local name g.scope_depth g.locals) (resolve_upvalue_at-Resolves name g gs)
    where
      by_local :
          (o : Option ℕ)
          → Resolves (nearest name gs) g gs (resolve_upvalue_at name g gs)
          → Resolves
              (elim o [ none ↦ farther (nearest name gs) | some slot ↦ some (0, slot) ])
              f
              (g ∷ gs)
              (elim o [
                | none ↦
                    passed_on f
                      (resolve_upvalue_at name g gs).inner
                      (resolve_upvalue_at name g gs).outer
                      (resolve_upvalue_at name g gs).found
                | some slot ↦ captured f g gs slot
              ])
      by_local (some slot) ih = captured-Resolves f g gs slot
      by_local none ih = passed_on-Resolves f g _ gs _ (nearest name gs) _ ih.0 ih.1

  -- A resolution finds the innermost local of the name around the function, if there is one: the latest
  -- declared of an open scope, in the nearest function that has one. It finds it through the upvalues that it
  -- answers and adds, and no upvalue that there was stands for another local.
  pub resolve_upvalue_at-Finds :
      (name : Text) (f : FuncCtx D) (gs : List (FuncCtx D))
      → (place : Option Place) × Nearest name gs place
        × Finds place (resolve_upvalue_at name f gs)
        × Conserves f gs (resolve_upvalue_at name f gs)
  resolve_upvalue_at-Finds name f gs =
      let (finds, conserves) = resolve_upvalue_at-Resolves name f gs in
      (nearest name gs, nearest-Nearest name gs, finds, conserves)
