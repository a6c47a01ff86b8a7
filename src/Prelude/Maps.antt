-- ===== src/Prelude/Maps.antt =====
-- Association lists keyed by a number: the model of the runtime's HashMaps over addresses and
-- process ids, which the code only reads by key and never by position; no source file.
use y.Prelude.Tests.{if_cases, ==→≡, ◌==◌, if◌then◌else◌}
use Prim.Native.Nat.{ℕ}
use mathlib.Core.Path.{◌≡◌, refl}
use mathlib.Core.Option.{Option, none, some}
use mathlib.Core.List.{List, [], ◌∷◌}
use native.Mathlib.Omega.{arith}

abbrev pub Map {ℓ} : Type ℓ → Type ℓ
Map V = List (ℕ × V)

module _ {ℓ} {V : Type ℓ} where
  unfoldable pub lookup : ℕ → Map V → Option V
  lookup k [] = none
  lookup k ((j, v) ∷ m) = if j == k then some v else lookup k m

  -- In place of the entry with this key, or as the last one.
  unfoldable pub insert : ℕ → V → Map V → Map V
  insert key new [] = (key, new) ∷ []
  insert key new ((j, old) ∷ rest) =
      if j == key then (key, new) ∷ rest else (j, old) ∷ insert key new rest

  unfoldable pub remove : ℕ → Map V → Map V
  remove k [] = []
  remove k ((j, v) ∷ m) = let rest = remove k m in if j == k then rest else (j, v) ∷ rest

  -- What is found after an insertion; `key` is the one inserted.
  pub lookup-insert :
      (key at : ℕ) (new : V) (entries : Map V)
      → lookup at (insert key new entries) ≡ (if key == at then some new else lookup at entries)
  unfolding insert lookup
  lookup-insert key at new [] = refl
  lookup-insert key at new (entry ∷ entries) = ground (arith, lookup-insert key at new entries)

  pub lookup-remove :
      (k j : ℕ) (m : Map V) → lookup j (remove k m) ≡ (if k == j then none else lookup j m)
  unfolding lookup remove
  lookup-remove k j [] = ground arith
  lookup-remove k j ((i, w) ∷ m) = ground (arith, lookup-remove k j m)

  -- No key stands twice.
  abbrev pub IsDistinct : Map V → Type ℓ
  IsDistinct [] = Unit
  IsDistinct ((k, v) ∷ m) = (lookup k m ≡ none) × IsDistinct m

  pub insert-IsDistinct : (k : ℕ) (v : V) (m : Map V) → IsDistinct m → IsDistinct (insert k v m)
  unfolding insert
  insert-IsDistinct k v [] h = (unfold lookup in refl, tt)
  insert-IsDistinct k v ((j, w) ∷ m) h =
      if_cases IsDistinct (j == k) (λ e. (rw (← ==→≡ j k e) h.0, h.1))
        (λ e. (ground (arith, lookup-insert k j v m, h.0), insert-IsDistinct k v m h.1))
