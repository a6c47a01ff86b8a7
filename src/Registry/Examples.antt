-- ===== src/Registry/Examples.antt =====
-- Runs of the registry of process ids.
use y.Prelude.{get_elem?, ℕ, ◌≡◌, refl, true, List, [], ◌∷◌, some, arith}
use y.Prelude.Maps.{insert, remove}
use y.Registry.{new, allocate_pid, register, unregister, get_sender, len, is_empty}
use y.Registry.Pids.{
  Step, allocated, registered, unregistered, apply, apply_all, start, registered_stays,
}

-- Two actors take their ids before the first of them is registered.
abbrev crowd : List (Step ℕ)
crowd = allocated ∷ allocated ∷ []

abbrev later : List (Step ℕ)
later = registered 1 8 ∷ allocated ∷ unregistered 1 ∷ registered 2 9 ∷ []

empty_at_first : is_empty {S = ℕ} new ≡ true
unfolding is_empty len new
empty_at_first = refl

two_left : len (apply_all later (apply (registered 0 7) (apply_all crowd start))).registry ≡ 2
unfolding len new allocate_pid register unregister insert remove
two_left = refl

first_id : get_elem? (apply_all crowd start).held 0 ≡ some 1
unfolding new allocate_pid
first_id = refl

registered_stays_example :
    get_sender 1 (apply_all later (apply (registered 0 7) (apply_all crowd start))).registry
    ≡ some 7
registered_stays_example =
    registered_stays crowd later 7 0 1 (omega arith) first_id
      (λ e. omega (arith, e), (tt, (λ e. omega (arith, e), (λ e. omega (arith, e), tt))))
