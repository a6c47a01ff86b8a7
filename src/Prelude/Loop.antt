-- ===== src/Prelude/Loop.antt =====
-- `loop { ... }` with `continue`, `break` and results: the loop combinator of the lexer's loops,
-- on fuel, with its rule of total correctness; no source file.
use Prim.Native.Nat.{ℕ, zero, suc, ◌<◌}
use mathlib.Core.Path.{◌≡◌, refl}
use mathlib.Core.Option.{Option, none, some}
use native.Mathlib.Omega.{arith}

-- What one round decides: to go on from a state, or to leave with a result.
pub data Round {ℓ} (S R : Type ℓ) : Type ℓ where
  again : S → Round S R
  finish : R → Round S R

-- `none`: the fuel of this loop, or of a loop within its body, ran out.
abbrev pub next {ℓ} : {S R : Type ℓ} → (S → Option R) → Option (Round S R) → Option R
next go none = none
next go (some (again s)) = go s
next go (some (finish r)) = some r

unfoldable pub loop {ℓ} : {S R : Type ℓ} → (S → Option (Round S R)) → ℕ → S → Option R
loop body zero s = none
loop body (suc fuel) s = next (loop body fuel) (body s)

-- A round that goes on keeps `P` and lowers the measure; one that leaves has a result in `Q`.
abbrev pub After {ℓ} :
    {S R : Type ℓ} → (S → Type 0) → (R → Type 0) → (S → ℕ) → ℕ → Round S R → Type 0
After P Q measure m (again s') = P s' × (measure s' < m)
After P Q measure m (finish r) = Q r

abbrev pub Returns {ℓ} : {A : Type ℓ} → (A → Type 0) → Option A → Type 0
Returns Q none = ⊥
Returns Q (some a) = Q a

pub Returns-some {ℓ} :
    {A : Type ℓ} (Q : A → Type 0) (o : Option A) → Returns Q o → (a : A) × (o ≡ some a) × Q a
Returns-some Q none h = absurd h
Returns-some Q (some a) h = (a, refl, h)

module _ {ℓ} {S R : Type ℓ} (P : S → Type 0) (Q : R → Type 0) (measure : S → ℕ) where
  next_rule :
      (m : ℕ) (go : S → Option R) (o : Option (Round S R))
      → ((s : S) → P s → measure s < m → Returns Q (go s))
      → Returns (After P Q measure m) o
      → Returns Q (next go o)
  next_rule m go none k a = absurd a
  next_rule m go (some (again s)) k a = k s a.0 a.1
  next_rule m go (some (finish r)) k a = a

  -- With more fuel than the measure the loop leaves with a result in `Q`.
  pub loop_rule :
      (body : S → Option (Round S R))
      → ((s : S) → P s → Returns (After P Q measure (measure s)) (body s))
      → (fuel : ℕ) (s : S) → measure s < fuel
      → P s
      → Returns Q (loop body fuel s)
  unfolding loop
  loop_rule body step zero s m h = absurd (omega arith)
  loop_rule body step (suc fuel) s m h =
      next_rule (measure s) (loop body fuel) (body s)
        (λ s' h' lt. loop_rule body step fuel s' (omega arith) h') (step s h)

-- The result of a chain of two calls.
pub Returns-bind :
    {A B : Type 0} {P : A → Type 0} (Q : B → Type 0) (o : Option A) (f : A → Option B)
    → Returns P o
    → ((a : A) → P a → Returns Q (f a))
    → Returns Q (elim o [ none ↦ none | some a ↦ f a ])
Returns-bind Q none f h k = absurd h
Returns-bind Q (some a) f h k = k a h
