-- ===== src/Registry/Pids.antt =====
-- src/runtime/registry.rs: that process ids are unique, so that an actor's sender stays its own. An actor takes
-- its id when it is made (`allocate_pid`, src/value.rs) and is registered later, in a step of its own
-- (`register`, src/interpreter/mod.rs), or never; the steps of the threads interleave in any order.
use y.Prelude.{
  ℕ, zero, suc, ◌+◌, ◌<◌, ◌^◌, ◌≡◌, ◌≢◌, ◌⊎◌, inl, inr, refl, ap, ◌∙◌, List, [], ◌∷◌, ◌++◌, All,
  Option, none, some, length, length-append, get_elem?, arith,
}
use y.Prelude.Maps.{lookup-insert, lookup-remove}
use y.Registry.{Registry, new, allocate_pid, register, unregister, get_sender}

-- A step of some thread: an actor takes a process id; the sender of an actor is registered, or taken
-- out. The actors are numbered by the order in which they take their ids.
pub data Step (S : Type 0) : Type 0 where
  allocated : Step S
  registered : ℕ → S → Step S
  unregistered : ℕ → Step S

-- The registry, and the ids that the actors hold.
pub record World (S : Type 0) : Type 0 where
  pub registry : Registry S
  pub held : List ℕ

-- The step is of another actor, or takes an id.
abbrev pub IsOther : {S : Type 0} → ℕ → Step S → Type 0
IsOther actor allocated = Unit
IsOther actor (registered other s) = other ≢ actor
IsOther actor (unregistered other) = other ≢ actor

held_before :
    (xs : List ℕ) (x k pid : ℕ)
    → get_elem? (xs ++ x ∷ []) k ≡ some pid
    → (get_elem? xs k ≡ some pid) ⊎ ((k ≡ length xs) × (pid ≡ x))
held_before [] x zero pid e = inr (refl, ground (arith, e))
held_before [] x (suc k) pid e = absurd (ground (arith, e))
held_before (y ∷ ys) x zero pid e = inl e
held_before (y ∷ ys) x (suc k) pid e = elim (held_before ys x k pid e) [
  | inl h ↦ inl h
  | inr h ↦ inr (ap suc h.0, h.1)
]

held_still :
    (xs : List ℕ) (x k pid : ℕ) → get_elem? xs k ≡ some pid → get_elem? (xs ++ x ∷ []) k ≡ some pid
held_still [] x k pid e = absurd (ground (arith, e))
held_still (y ∷ ys) x zero pid e = e
held_still (y ∷ ys) x (suc k) pid e = held_still ys x k pid e

module _ {S : Type 0} where
  abbrev register_held : Option ℕ → S → World S → World S
  register_held none s w = w
  register_held (some pid) s w = record w { registry = register pid s w.registry }

  abbrev unregister_held : Option ℕ → World S → World S
  unregister_held none w = w
  unregister_held (some pid) w = record w { registry = unregister pid w.registry }

  abbrev pub apply : Step S → World S → World S
  apply allocated w =
      let (pid, g) = allocate_pid w.registry in record { registry = g; held = w.held ++ pid ∷ [] }
  apply (registered actor s) w = register_held (get_elem? w.held actor) s w
  apply (unregistered actor) w = unregister_held (get_elem? w.held actor) w

  abbrev pub apply_all : List (Step S) → World S → World S
  apply_all [] w = w
  apply_all (x ∷ xs) w = apply_all xs (apply x w)

  abbrev pub start : World S
  start = record { registry = new; held = [] }

  -- The ids are numbered by the actors, and the counter has one for each of `n` more steps.
  abbrev IsNumbered : ℕ → World S → Type 0
  IsNumbered n w =
      (w.registry.pid_counter ≡ suc (length w.held))
      × (suc (length w.held) + n < 2 ^ 64)
      × ((k pid : ℕ) → get_elem? w.held k ≡ some pid → pid ≡ suc k)

  -- Once a step is over, there is one less to come.
  fewer : (n : ℕ) (w : World S) → IsNumbered (suc n) w → IsNumbered n w
  fewer n w h = (h.0, omega (arith, h.1), h.2)

  allocated-IsNumbered :
      (n : ℕ) (w : World S) → IsNumbered (suc n) w → IsNumbered n (apply allocated w)
  unfolding allocate_pid
  allocated-IsNumbered n w h =
      let longer = length-append w.held (w.registry.pid_counter ∷ []) in
      (
        omega (arith, h.0, h.1, longer),
        omega (arith, h.1, longer),
        λ k pid e. elim (held_before w.held w.registry.pid_counter k pid e) [
          | inl old ↦ h.2 k pid old
          | inr last ↦ omega (arith, last.0, last.1, h.0)
        ],
      )

  apply-IsNumbered :
      (n : ℕ) (x : Step S) (w : World S) → IsNumbered (suc n) w → IsNumbered n (apply x w)
  unfolding register unregister
  apply-IsNumbered n allocated w h = allocated-IsNumbered n w h
  apply-IsNumbered n (registered actor s) w h = by_id (get_elem? w.held actor)
    where
      by_id : (o : Option ℕ) → IsNumbered n (register_held o s w)
      by_id none = fewer n w h
      by_id (some pid) = fewer n w h
  apply-IsNumbered n (unregistered actor) w h = by_id (get_elem? w.held actor)
    where
      by_id : (o : Option ℕ) → IsNumbered n (unregister_held o w)
      by_id none = fewer n w h
      by_id (some pid) = fewer n w h

  apply_all-IsNumbered :
      (n total : ℕ) (xs : List (Step S)) (w : World S)
      → total ≡ length xs + n
      → IsNumbered total w
      → IsNumbered n (apply_all xs w)
  apply_all-IsNumbered n total [] w e h = (h.0, omega (arith, e, h.1), h.2)
  apply_all-IsNumbered n total (x ∷ xs) w e h =
      apply_all-IsNumbered n (length xs + n) xs (apply x w) refl
        (apply-IsNumbered (length xs + n) x w (h.0, omega (arith, e, h.1), h.2))

  -- What a step of another actor leaves of the actor's entry and id.
  abbrev Untouched : ℕ → ℕ → World S → World S → Type 0
  Untouched actor pid w w' =
      (get_sender pid w'.registry ≡ get_sender pid w.registry)
      × (get_elem? w'.held actor ≡ some pid)

  other-Untouched :
      (n actor pid : ℕ) (x : Step S) (w : World S)
      → IsNumbered n w
      → get_elem? w.held actor ≡ some pid
      → IsOther actor x
      → Untouched actor pid w (apply x w)
  unfolding allocate_pid register unregister get_sender
  other-Untouched n actor pid allocated w h e other =
      (refl, held_still w.held w.registry.pid_counter actor pid e)
  other-Untouched n actor pid (registered k s) w h e other =
      by_id (get_elem? w.held k) (λ q f. h.2 k q f)
    where
      by_id :
          (o : Option ℕ)
          → ((q : ℕ) → o ≡ some q → q ≡ suc k)
          → Untouched actor pid w (register_held o s w)
      by_id none g = (refl, e)
      by_id (some q) g =
          let differ : q ≢ pid = λ same. other (omega (arith, same, g q refl, h.2 actor pid e)) in
          (ground (arith, lookup-insert q pid s w.registry.senders, differ), e)
  other-Untouched n actor pid (unregistered k) w h e other =
      by_id (get_elem? w.held k) (λ q f. h.2 k q f)
    where
      by_id :
          (o : Option ℕ)
          → ((q : ℕ) → o ≡ some q → q ≡ suc k)
          → Untouched actor pid w (unregister_held o w)
      by_id none g = (refl, e)
      by_id (some q) g =
          let differ : q ≢ pid = λ same. other (omega (arith, same, g q refl, h.2 actor pid e)) in
          (ground (arith, lookup-remove q pid w.registry.senders, differ), e)

  others_untouched :
      (actor pid : ℕ) (xs : List (Step S)) (w : World S)
      → IsNumbered (length xs) w
      → get_elem? w.held actor ≡ some pid
      → All (IsOther actor) xs
      → get_sender pid (apply_all xs w).registry ≡ get_sender pid w.registry
  others_untouched actor pid [] w h e others = refl
  others_untouched actor pid (x ∷ xs) w h e others =
      let (same, still) = other-Untouched (suc (length xs)) actor pid x w h e others.0 in
      others_untouched actor pid xs (apply x w) (apply-IsNumbered (length xs) x w h) still others.1
      ∙ same

  registered_found :
      (actor pid : ℕ) (s : S) (w : World S)
      → get_elem? w.held actor ≡ some pid
      → (get_sender pid (apply (registered actor s) w).registry ≡ some s)
        × (get_elem? (apply (registered actor s) w).held actor ≡ some pid)
  unfolding register get_sender
  registered_found actor pid s w e =
      rw e (ground (arith, lookup-insert pid pid s w.registry.senders), e)

  -- Let the threads take any steps from the start on, interleaved in any way, as long as the 64-bit counter
  -- has an id for each. An actor that has taken an id, whatever happened then and before, and whose sender is
  -- then registered under it, is found with its own sender, whatever ids are taken and whatever other
  -- actors are registered and taken out, until it is registered again or taken out itself.
  pub registered_stays :
      (before after : List (Step S)) (s : S) (actor pid : ℕ)
      → length before + length after + 2 < 2 ^ 64
      → get_elem? (apply_all before start).held actor ≡ some pid
      → All (IsOther actor) after
      → get_sender pid
          (apply_all after (apply (registered actor s) (apply_all before start))).registry
        ≡ some s
  unfolding new
  registered_stays before after s actor pid few e others =
      let w = apply_all before start in
      let numbered =
        apply_all-IsNumbered (suc (length after)) (length before + suc (length after)) before start
          refl (refl, omega (arith, few), λ k q f. absurd (ground (arith, f))) in
      let (found, still) = registered_found actor pid s w e in
      others_untouched actor pid after (apply (registered actor s) w)
        (apply-IsNumbered (length after) (registered actor s) w numbered) still others
      ∙ found
