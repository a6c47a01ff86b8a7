-- ===== src/Prelude/Cases.antt =====
-- A property of a branching value from the property of its branches; no source file.
use mathlib.Core.Bool.{Bool, true, false}
use mathlib.Core.Path.{◌≡◌, refl}
use mathlib.Core.Option.{Option, none, some}

pub elim_both :
    {A : Type 0} (P : A → Type 0) (b : Bool) {x y : A}
    → P x
    → P y
    → P (elim b [ true ↦ x | false ↦ y ])
elim_both P true hx hy = hx
elim_both P false hx hy = hy

pub option_both :
    {A B : Type 0} (P : B → Type 0) (o : Option A) {x : B} {f : A → B}
    → P x
    → ((a : A) → P (f a))
    → P (elim o [ none ↦ x | some a ↦ f a ])
option_both P none hx hf = hx
option_both P (some a) hx hf = hf a

-- The same, with the equation of the case at hand.
pub option_cases :
    {A B : Type 0} (P : B → Type 0) (o : Option A) {x : B} {f : A → B}
    → P x
    → ((a : A) → o ≡ some a → P (f a))
    → P (elim o [ none ↦ x | some a ↦ f a ])
option_cases P none hx hf = hx
option_cases P (some a) hx hf = hf a refl

pub bool_split :
    {A : Type 0} (P : A → Type 0) (b : Bool) {x y : A}
    → (b ≡ true → P x)
    → (b ≡ false → P y)
    → P (elim b [ true ↦ x | false ↦ y ])
bool_split P true hx hy = hx refl
bool_split P false hx hy = hy refl

pub option_split :
    {A B : Type 0} (P : B → Type 0) (o : Option A) {x : B} {f : A → B}
    → (o ≡ none → P x)
    → ((a : A) → o ≡ some a → P (f a))
    → P (elim o [ none ↦ x | some a ↦ f a ])
option_split P none hx hf = hx refl
option_split P (some a) hx hf = hf a refl
