-- ===== src/Vm/Upvalue.antt =====
-- src/vm/closure.rs: upvalues, and the part of src/vm/vm.rs that keeps the open ones. An upvalue is
-- known by its `Rc` address. The operand stack is a list, its bottom first; `none` is the panic of
-- an index out of range.
use y.Prelude.{
  ℕ, ltb, leb, ◌==◌, if◌then◌else◌, Bool, true, false, List, [], ◌∷◌, Option, none, some, length,
  get_elem?, set,
}

pub data UpvalueState (V : Type 0) : Type 0 where
  open_at : ℕ → UpvalueState V
  closed : V → UpvalueState V

-- What the loop of `close_upvalues_above` makes of the upvalues, and keeps of the open ones.
pub record Closing (V : Type 0) : Type 0 where
  pub heap : ℕ → UpvalueState V
  pub still_open : List ℕ

-- `insert_open_upvalue`: before the first open one with a smaller index.
abbrev pub below : ℕ → Option ℕ → Bool
below i none = false
below i (some j) = ltb j i

abbrev pub or_zero : Option ℕ → ℕ
or_zero none = 0
or_zero (some i) = i

module _ {V : Type 0} where
  unfoldable pub read : UpvalueState V → List V → Option V
  read (open_at i) stack = get_elem? stack i
  read (closed v) stack = some v

  -- The stack and the state after the write.
  unfoldable pub write : UpvalueState V → List V → V → Option (UpvalueState V × List V)
  write (open_at i) stack v = if ltb i (length stack) then some (open_at i, set stack i v) else none
  write (closed _) stack v = some (closed v, stack)

  unfoldable pub stack_index : UpvalueState V → Option ℕ
  stack_index (open_at i) = some i
  stack_index (closed _) = none

  abbrev moved_out : Option V → Option (UpvalueState V × Bool)
  moved_out none = none
  moved_out (some v) = some (closed v, true)

  -- The new state, and whether this call closed it.
  unfoldable pub close_if_at : UpvalueState V → List V → ℕ → Option (UpvalueState V × Bool)
  close_if_at (open_at i) stack at =
      if i == at then moved_out (get_elem? stack i) else some (open_at i, false)
  close_if_at (closed v) stack at = some (closed v, false)

  unfoldable pub close_if_at_or_above : UpvalueState V → List V → ℕ → Option (UpvalueState V × Bool)
  close_if_at_or_above (open_at i) stack floor =
      if leb floor i then moved_out (get_elem? stack i) else some (open_at i, false)
  close_if_at_or_above (closed v) stack floor = some (closed v, false)

  -- The upvalues by address.
  unfoldable pub update : ℕ → UpvalueState V → (ℕ → UpvalueState V) → ℕ → UpvalueState V
  update u st heap w = if u == w then st else heap w

  unfoldable pub insert_before : ℕ → ℕ → (ℕ → UpvalueState V) → List ℕ → List ℕ
  insert_before i u heap [] = u ∷ []
  insert_before i u heap (w ∷ ws) =
      if below i (stack_index (heap w)) then u ∷ w ∷ ws else w ∷ insert_before i u heap ws

  unfoldable pub insert_open_upvalue : ℕ → (ℕ → UpvalueState V) → List ℕ → List ℕ
  insert_open_upvalue u heap ws = insert_before (or_zero (stack_index (heap u))) u heap ws

  -- One captured local of `make_closure`: a fresh upvalue, whose address is `u`.
  unfoldable pub capture_local :
      ℕ → ℕ → (ℕ → UpvalueState V) → List ℕ → (ℕ → UpvalueState V) × List ℕ
  capture_local u i heap ws =
      let heap' = update u (open_at i) heap in (heap', insert_open_upvalue u heap' ws)

  -- One step of the loop: `remove(i)` or `i += 1`.
  abbrev pub keep_if : Bool → ℕ → Option (Closing V) → Option (Closing V)
  keep_if did u none = none
  keep_if true u (some c) = some c
  keep_if false u (some c) = some (record { heap = c.heap; still_open = u ∷ c.still_open })

  -- `close_upvalues_above`.
  unfoldable pub close_upvalues_above :
      ℕ → List V → (ℕ → UpvalueState V) → List ℕ → Option (Closing V)
  close_upvalues_above floor stack heap [] = some (record { heap = heap; still_open = [] })
  close_upvalues_above floor stack heap (u ∷ us) =
      elim (close_if_at_or_above (heap u) stack floor) [
        | none ↦ none
        | some (st, did) ↦ keep_if did u (close_upvalues_above floor stack (update u st heap) us)
      ]
