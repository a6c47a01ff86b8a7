-- ===== src/Vm/Balance.antt =====
-- Every handler of a transaction has its context: what the operations on both stacks keep.
use y.Prelude.{
  ℕ, zero, suc, ◌+◌, ◌<◌, ltb, leb, ◌==◌, ==→≡, List, [], ◌∷◌, length, take, All, All-mono, Option,
  none, some, ◌≡◌, ◌≢◌, ◌⊎◌, inl, inr, refl, ap, sym, subst, arith, if_both,
}
use y.Prelude.Cases.{elim_both, option_split, bool_split}
use y.Prelude.Loop.{Round, After, Returns, Returns-some, loop_rule}
use y.Stm.{Value, TransactionContext}
use y.Vm.Machine.{
  VmCtx, Frame, ExceptionHandler, TransactHandler, Outcome, go_on, done, error, panic, cleanup,
  cleanup_transact_above, close_above, frame_depth, truncate, resumed, set_top_ip,
}
use y.Vm.Unwind.{
  find_exception, leave_frame, enter_handler, raise_round, raise_fuel, handle_exception, dropped,
  drop_frame,
}
use y.Vm.Upvalue.{UpvalueState, open_at, closed, Closing, close_upvalues_above}
use y.Vm.Capture.{InStack, IsBelow, Closed, close_upvalues_above-Closed}

pub nonempty : {A : Type 0} (xs : List A) → xs ≢ [] → (x : A) × (ys : List A) × (xs ≡ x ∷ ys)
nonempty [] n = absurd (n refl)
nonempty (x ∷ xs) n = (x, xs, refl)

-- A handler as `try` pushes it: within a frame, with a rescue or an ensure.
abbrev pub IsTarget : ExceptionHandler → Type 0
IsTarget h = (0 < h.frame_depth) × ((h.rescue_pc ≢ none) ⊎ (h.ensure_pc ≢ none))

-- What a search finds: a handler of the depth, and fewer below it.
abbrev FoundHandler :
    ℕ → List ExceptionHandler → Option (ExceptionHandler × List ExceptionHandler) → Type 0
FoundHandler depth hs none = Unit
FoundHandler depth hs (some r) =
    (length r.1 < length hs) × (r.0.frame_depth ≡ depth) × IsTarget r.0 × All IsTarget r.1

find_exception-Found :
    (depth : ℕ) (hs : List ExceptionHandler)
    → All IsTarget hs
    → FoundHandler depth hs (find_exception depth hs)
unfolding find_exception
find_exception-Found depth [] a = tt
find_exception-Found depth (h ∷ hs) a =
    bool_split (FoundHandler depth (h ∷ hs)) (h.frame_depth == depth)
      (λ e. (omega arith, ==→≡ h.frame_depth depth e, a.0, a.1))
      (λ _. longer (find_exception depth hs) (find_exception-Found depth hs a.1))
  where
    longer :
        (o : Option (ExceptionHandler × List ExceptionHandler))
        → FoundHandler depth hs o
        → FoundHandler depth (h ∷ hs) o
    longer none k = tt
    longer (some r) k = (omega (arith, k.0), k.1, k.2, k.3)

length-take_more :
    {A : Type 0} (n i : ℕ) (xs : List A) → i < n → i < length xs → i < length (take n xs)
length-take_more zero i xs l h = absurd (omega (arith, l))
length-take_more (suc n) i [] l h = absurd (omega (arith, h))
length-take_more (suc n) zero (x ∷ xs) l h = omega arith
length-take_more (suc n) (suc i) (x ∷ xs) l h =
    omega (arith, length-take_more n i xs (omega (arith, l)) (omega (arith, h)))

InStack-take :
    {V : Type 0} (n : ℕ) (stack : List V) (st : UpvalueState V)
    → IsBelow n st × InStack stack st
    → InStack (take n stack) st
InStack-take n stack (open_at i) h = length-take_more n i stack h.0 h.1
InStack-take n stack (closed v) h = tt

module _ {P : Type 0} where
  abbrev pub SameLength : List TransactHandler → List (TransactionContext P) → Type 0
  SameLength hs txns = length txns ≡ length hs

  abbrev pub Balanced : VmCtx P → Type 0
  Balanced c = SameLength c.transact_handlers c.memory.txn_stack

  cleanup-SameLength :
      (floor : ℕ) (hs : List TransactHandler) (txns : List (TransactionContext P))
      → SameLength hs txns
      → (let r : List TransactHandler × List (TransactionContext P) = cleanup floor hs txns in
          SameLength r.0 r.1)
  unfolding cleanup
  cleanup-SameLength floor [] txns h = h
  cleanup-SameLength floor (x ∷ hs) [] h = absurd (omega (arith, h))
  cleanup-SameLength floor (x ∷ hs) (t ∷ txns) h =
      elim_both (λ (r : List TransactHandler × List (TransactionContext P)). SameLength r.0 r.1)
        (ltb floor x.stack_depth) (cleanup-SameLength floor hs txns (omega (arith, h))) h

  -- The top frame goes on at an address.
  abbrev pub Jumps : ℕ → VmCtx P → VmCtx P → Type 0
  Jumps addr c c' =
      (f : Frame) × (fs : List Frame) × (c.frames ≡ f ∷ fs)
      × (c'.frames ≡ record f { ip = addr } ∷ fs)

  -- It ends without a panic, and the stacks agree in length.
  abbrev pub EndsBalanced : Outcome P → Type 0
  EndsBalanced (go_on c) = Balanced c
  EndsBalanced (done v c) = Balanced c
  EndsBalanced (error s c) = Balanced c
  EndsBalanced panic = ⊥

  -- Every open upvalue points into the operand stack.
  abbrev pub IsCaptured : VmCtx P → Type 0
  IsCaptured c = All (λ w. InStack c.stack (c.upvalues w)) c.open_upvalues

  -- A machine that can raise.
  abbrev pub IsRaisable : VmCtx P → Type 0
  IsRaisable c = Balanced c × IsCaptured c × All IsTarget c.exception_handlers

  left : VmCtx P × Value P → ℕ
  left s = length s.0.exception_handlers + length s.0.frames

  abbrev Raised : ℕ → Option (Round (VmCtx P × Value P) (Outcome P)) → Type 0
  Raised m o = Returns (After (λ (s : VmCtx P × Value P). IsRaisable s.0) EndsBalanced left m) o

  set_top_ip-Balanced :
      (addr : ℕ) (fs : List Frame) (c : VmCtx P)
      → 0 < length fs
      → Balanced c
      → EndsBalanced (resumed (set_top_ip addr fs c))
  set_top_ip-Balanced addr [] c lt b = absurd (omega (arith, lt))
  set_top_ip-Balanced addr (f ∷ fs) c lt b = b

  enter_handler-After :
      (h : ExceptionHandler) (hs : List ExceptionHandler) (c : VmCtx P) (v : Value P)
      → Balanced c
      → h.frame_depth ≡ frame_depth c
      → IsTarget h
      → Raised (left (c, v)) (some (enter_handler h hs c v))
  unfolding enter_handler cleanup_transact_above
  enter_handler-After h hs c v b same target =
      let kept = cleanup-SameLength h.stack_depth c.transact_handlers c.memory.txn_stack b in
      let framed : 0 < length c.frames = omega (arith, same, target.0) in
      option_split (λ r. Raised (left (c, v)) (some r)) h.rescue_pc
        (λ no_rescue.
          option_split (λ r. Raised (left (c, v)) (some r)) h.ensure_pc
            (λ no_ensure. elim target.1 [
              | inl rescue ↦ absurd (rescue no_rescue)
              | inr ensure ↦ absurd (ensure no_ensure)
            ])
            (λ pc _. set_top_ip-Balanced pc c.frames _ framed kept))
        (λ pc _. set_top_ip-Balanced pc c.frames _ framed kept)

  -- What the closing of upvalues for a frame that is left leaves.
  abbrev Left : ℕ → List Frame → VmCtx P → VmCtx P → Type 0
  Left base fs c c' =
      Balanced c'
      × IsCaptured (truncate base c')
      × (c'.frames ≡ fs)
      × (c'.exception_handlers ≡ c.exception_handlers)

  leave_frame-Left :
      (f : Frame) (fs : List Frame) (c : VmCtx P)
      → Balanced c
      → IsCaptured c
      → Returns (Left f.stack_base fs c) (leave_frame f fs c)
  unfolding leave_frame close_above cleanup_transact_above
  leave_frame-Left f fs c b captured =
      shut (close_upvalues_above f.stack_base c.stack c.upvalues c.open_upvalues)
        (close_upvalues_above-Closed f.stack_base c.stack c.upvalues c.open_upvalues captured)
    where
      shut :
          (o : Option (Closing (Value P)))
          → Returns (Closed f.stack_base c.stack c.upvalues c.open_upvalues) o
          → Returns (Left f.stack_base fs c) (
              let closed_ones : Option (VmCtx P) = elim o [
                | none ↦ none
                | some k ↦
                    some (record c { frames = fs; upvalues = k.heap; open_upvalues = k.still_open })
              ] in
              elim closed_ones [
                | none ↦ none
                | some c' ↦ some (cleanup_transact_above f.stack_base c')
              ])
      shut none k = k
      shut (some k) closed_ones = (
        cleanup-SameLength f.stack_base c.transact_handlers c.memory.txn_stack b,
        All-mono _ _ k.still_open (λ w h. InStack-take f.stack_base c.stack (k.heap w) h)
            closed_ones.still,
        refl,
        refl,
      )

  dropped-Raised :
      (v : Value P) (f : Frame) (fs : List Frame) (c : VmCtx P) (o : Option (VmCtx P))
      → Returns (Left f.stack_base fs c) o
      → All IsTarget c.exception_handlers
      → length fs < length c.frames
      → Raised (left (c, v)) (some (dropped v f o))
  unfolding left
  dropped-Raised v f fs c none d targets lt = absurd d
  dropped-Raised v f fs c (some c') (b, captured, frames, same) targets lt = (
    (b, captured, subst (All IsTarget) (sym same) targets),
    omega (arith, lt, ap length frames, ap length same),
  )

  drop_frame-After :
      (depth : ℕ) (c : VmCtx P) (v : Value P)
      → IsRaisable c
      → Raised (left (c, v)) (some (drop_frame depth c.frames c v))
  drop_frame-After depth c v (b, captured, targets) = go c.frames refl
    where
      go : (fs : List Frame) → c.frames ≡ fs → Raised (left (c, v)) (some (drop_frame depth fs c v))
      go [] e = b
      go (f ∷ fs) e =
          if_both (λ r. Raised (left (c, v)) (some r)) (leb (suc (length fs)) depth) b
            (dropped-Raised v f fs c (leave_frame f fs c) (leave_frame-Left f fs c b captured)
              targets (omega (arith, ap length e)))

  raise_round-After :
      (depth : ℕ) (s : VmCtx P × Value P) → IsRaisable s.0 → Raised (left s) (raise_round depth s)
  unfolding raise_round
  raise_round-After depth (c, v) raisable =
      by_search (find_exception (frame_depth c) c.exception_handlers)
        (find_exception-Found (frame_depth c) c.exception_handlers raisable.2)
    where
      by_search :
          (o : Option (ExceptionHandler × List ExceptionHandler))
          → FoundHandler (frame_depth c) c.exception_handlers o
          → Raised (left (c, v)) (elim o [
            | some (h, hs) ↦ some (enter_handler h hs c v)
            | none ↦ some (drop_frame depth c.frames c v)
          ])
      by_search none k = drop_frame-After depth c v raisable
      by_search (some (h, hs)) k = enter_handler-After h hs c v raisable.0 k.1 k.2

  -- When every handler of a transaction has its context, every open upvalue points into the operand stack,
  -- and every handler of exceptions belongs to a frame and has a rescue or an ensure, raising an exception
  -- ends without a panic, and leaves as many contexts as handlers.
  pub handle_exception-Balanced :
      (depth : ℕ) (value : Value P) (c : VmCtx P)
      → IsRaisable c
      → (o : Outcome P) × (handle_exception depth value c ≡ some o) × EndsBalanced o
  unfolding handle_exception
  handle_exception-Balanced depth value c raisable = Returns-some EndsBalanced _ (
      loop_rule (λ (s : VmCtx P × Value P). IsRaisable s.0) EndsBalanced left (raise_round depth)
        (raise_round-After depth) (raise_fuel c) (c, value) (unfold left in omega arith) raisable)
