-- ===== src/Env/Examples.antt =====
-- Scopes on concrete names.
use y.Prelude.{ℕ, Text, codes, [], ◌∷◌, Bool, Option, none, some, ◌≡◌, refl, arith}
use y.Env.{Heap, find, put, store, new, child, define, get, get_from, assign, assign_from, has}
use y.Env.Chain.{IsChained, Outcome, assign-Outcome, child_scope, answered, has-get}

-- The global scope at 0.
abbrev global : Heap ℕ
global = record {
  frames = λ a. record { bindings = (codes "x", 1) ∷ []; parent = none };
  fresh = 1;
}

global-IsChained : IsChained global
global-IsChained a p e = absurd (ground arith)

-- A block's scope at 1 inside it.
abbrev block : Heap ℕ
block = (child 0 global).1

-- An assignment in the block reaches the global scope.
assigned_x : Option (Option ℕ)
unfolding assign assign_from child new store find put define get get_from
assigned_x = elim (assign (codes "x") 5 1 block) [ none ↦ none | some (_, h) ↦ get (codes "x") 0 h ]

assigned_x_is : assigned_x ≡ some (some 5)
unfolding assigned_x
assigned_x_is = refl

assign-Outcome_example :
    (r : Bool × Heap ℕ) × (assign (codes "x") 5 0 global ≡ some r)
    × Outcome global (codes "x") 5 0 r
assign-Outcome_example = assign-Outcome global (codes "x") 5 0 global-IsChained

child_scope_example :
    ((n : Text) → get n (child 0 global).0 (child 0 global).1 ≡ get n 0 global)
    × (get
          (codes "x")
          (child 0 global).0
          (define (codes "x") 5 (child 0 global).0 (child 0 global).1)
        ≡ some (some 5))
    × ((n : Text)
        → get n 0 (define (codes "x") 5 (child 0 global).0 (child 0 global).1) ≡ get n 0 global)
    × IsChained (define (codes "x") 5 (child 0 global).0 (child 0 global).1)
child_scope_example = child_scope global (codes "x") 5 0 global-IsChained (omega arith)

has-get_example : has (codes "y") 1 block ≡ answered (get (codes "y") 1 block)
has-get_example = has-get (codes "y") 1 block
