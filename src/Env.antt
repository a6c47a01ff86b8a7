-- ===== src/Env.antt =====
-- src/interpreter/env.rs: the scope chain of the tree-walking interpreter. The frames stand on a heap,
-- since closures and blocks share them: `EnvRef` is an address. The walk up the chain is on fuel, one
-- above the address at which it starts; `none` is a walk without an end, a cycle of parents.
pub mod Chain
pub mod Examples
use y.Prelude.{
  ℕ, zero, suc, ◌+◌, ◌==◌, if◌then◌else◌, Text, same_text, List, [], ◌∷◌, Bool, true, false, Option,
  none, some,
}

pub record Environment (V : Type 0) : Type 0 where
  pub bindings : List (Text × V)
  pub parent : Option ℕ

-- The frames by address; those from `fresh` on are not allocated.
pub record Heap (V : Type 0) : Type 0 where
  pub frames : ℕ → Environment V
  pub fresh : ℕ

module _ {V : Type 0} where
  unfoldable pub find : Text → List (Text × V) → Option V
  find name [] = none
  find name ((n, v) ∷ bs) = elim (same_text n name) [ true ↦ some v | false ↦ find name bs ]

  -- `HashMap::insert`.
  unfoldable pub put : Text → V → List (Text × V) → List (Text × V)
  put name v [] = (name, v) ∷ []
  put name v ((n, w) ∷ bs) = elim (same_text n name) [
    | true ↦ (name, v) ∷ bs
    | false ↦ (n, w) ∷ put name v bs
  ]

  unfoldable pub store : ℕ → Environment V → Heap V → Heap V
  store a env h = record h { frames = λ b. if b == a then env else h.frames b }

  -- The new frame's address, and the heap with it.
  unfoldable pub new : Option ℕ → Heap V → ℕ × Heap V
  new parent h =
      let h' = store h.fresh (record { bindings = []; parent = parent }) h in
      (h.fresh, record h' { fresh = h.fresh + 1 })

  unfoldable pub child : ℕ → Heap V → ℕ × Heap V
  child parent h = new (some parent) h

  unfoldable pub define : Text → V → ℕ → Heap V → Heap V
  define name v a h =
      let env = h.frames a in store a (record env { bindings = put name v env.bindings }) h

  unfoldable pub get_from : ℕ → Heap V → Text → ℕ → Option (Option V)
  get_from zero h name a = none
  get_from (suc n) h name a = elim (find name (h.frames a).bindings) [
    | some v ↦ some (some v)
    | none ↦ elim (h.frames a).parent [ none ↦ some none | some p ↦ get_from n h name p ]
  ]

  unfoldable pub get : Text → ℕ → Heap V → Option (Option V)
  get name a h = get_from (suc a) h name a

  unfoldable pub assign_from : ℕ → Heap V → Text → V → ℕ → Option (Bool × Heap V)
  assign_from zero h name v a = none
  assign_from (suc n) h name v a = elim (find name (h.frames a).bindings) [
    | some _ ↦ some (true, define name v a h)
    | none ↦ elim (h.frames a).parent [ none ↦ some (false, h) | some p ↦ assign_from n h name v p ]
  ]

  unfoldable pub assign : Text → V → ℕ → Heap V → Option (Bool × Heap V)
  assign name v a h = assign_from (suc a) h name v a

  unfoldable pub has_from : ℕ → Heap V → Text → ℕ → Option Bool
  has_from zero h name a = none
  has_from (suc n) h name a = elim (find name (h.frames a).bindings) [
    | some _ ↦ some true
    | none ↦ elim (h.frames a).parent [ none ↦ some false | some p ↦ has_from n h name p ]
  ]

  unfoldable pub has : Text → ℕ → Heap V → Option Bool
  has name a h = has_from (suc a) h name a
