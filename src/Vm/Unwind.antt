-- ===== src/Vm/Unwind.antt =====
-- src/vm/vm.rs: `handle_signal` and `return_from_frame`. `depth` is the frame depth at which a nested
-- run stops, the argument `propagate_depth`.
use y.Prelude.{
  ℕ, suc, ◌+◌, ltb, leb, ◌==◌, if◌then◌else◌, Bool, true, false, List, [], ◌∷◌, length, Option,
  none, some,
}
use y.Prelude.Loop.{Round, again, finish, loop}
use y.Stm.{Value}
use y.Vm.Machine.{
  VmCtx, Frame, LoopHandler, ExceptionHandler, break_outside_loop, continue_outside_loop, Signal,
  break, continue, retry, user_exception, reply, return, failure, Outcome, go_on, done, error,
  panic, frame_depth, push, truncate, resumed, set_ip, cleanup_transact_above, close_above,
}
use y.Vm.Transact.{handle_retry}

-- The topmost handler of a frame depth and what lies below it.
unfoldable pub find_exception :
    ℕ → List ExceptionHandler → Option (ExceptionHandler × List ExceptionHandler)
find_exception depth [] = none
find_exception depth (h ∷ hs) = elim (h.frame_depth == depth) [
  | true ↦ some (h, hs)
  | false ↦ find_exception depth hs
]

-- `Vec::retain`.
abbrev pub retain {ℓ} : {A : Type ℓ} → (A → Bool) → List A → List A
retain keep [] = []
retain keep (x ∷ xs) = if keep x then x ∷ retain keep xs else retain keep xs

module _ {P : Type 0} where
  -- `nil` is Value::Nil.
  abbrev or_nil : Value P → Option (Value P) → Value P
  or_nil nil none = nil
  or_nil nil (some v) = v

  abbrev break_at : Value P → Option (Value P) → List LoopHandler → VmCtx P → Outcome P
  break_at nil value [] c = error (failure break_outside_loop) c
  break_at nil value (h ∷ hs) c =
      if h.frame_depth == frame_depth c
      then resumed (set_ip h.break_addr (push (or_nil nil value) (truncate h.stack_depth c)))
      else error (failure break_outside_loop) c

  unfoldable pub handle_break : Value P → Option (Value P) → VmCtx P → Outcome P
  handle_break nil value c = break_at nil value c.loop_handlers c

  abbrev continue_at : List LoopHandler → VmCtx P → Outcome P
  continue_at [] c = error (failure continue_outside_loop) c
  continue_at (h ∷ hs) c =
      if h.frame_depth == frame_depth c
      then resumed (set_ip h.continue_addr (truncate h.stack_depth c))
      else error (failure continue_outside_loop) c

  unfoldable pub handle_continue : VmCtx P → Outcome P
  handle_continue c = continue_at c.loop_handlers c

  -- `self.close_upvalues_above(base); self.cleanup_transact_above(base)` for a popped frame.
  unfoldable pub leave_frame : Frame → List Frame → VmCtx P → Option (VmCtx P)
  leave_frame f fs c = elim (close_above f.stack_base (record c { frames = fs })) [
    | none ↦ none
    | some c' ↦ some (cleanup_transact_above f.stack_base c')
  ]

  -- The handler found: its jump, or none, when the loop goes on with the value.
  unfoldable pub enter_handler :
      ExceptionHandler
      → List ExceptionHandler
      → VmCtx P
      → Value P
      → Round (VmCtx P × Value P) (Outcome P)
  enter_handler h hs c value =
      let cleaned =
        cleanup_transact_above h.stack_depth
          (record c { exception_handlers = hs; pending_exception = some value }) in
      let c' = push value (truncate h.stack_depth cleaned) in
      elim h.rescue_pc [
        | some pc ↦ finish (resumed (set_ip pc c'))
        | none ↦ elim h.ensure_pc [
          | some pc ↦ finish (resumed (set_ip pc c'))
          | none ↦ again (record c' { pending_exception = none }, value)
        ]
      ]

  abbrev pub dropped : Value P → Frame → Option (VmCtx P) → Round (VmCtx P × Value P) (Outcome P)
  dropped value f none = finish panic
  dropped value f (some c) = again (truncate f.stack_base c, value)

  -- No handler: the frame is dropped, unless the signal must escape.
  abbrev pub drop_frame : ℕ → List Frame → VmCtx P → Value P → Round (VmCtx P × Value P) (Outcome P)
  drop_frame depth [] c value = finish (error (user_exception value) c)
  drop_frame depth (f ∷ fs) c value =
      if leb (suc (length fs)) depth
      then finish (error (user_exception value) c)
      else dropped value f (leave_frame f fs c)

  unfoldable pub raise_round :
      ℕ → VmCtx P × Value P → Option (Round (VmCtx P × Value P) (Outcome P))
  raise_round depth (c, value) = elim (find_exception (frame_depth c) c.exception_handlers) [
    | some (h, hs) ↦ some (enter_handler h hs c value)
    | none ↦ some (drop_frame depth c.frames c value)
  ]

  -- Each round pops a handler or a frame.
  abbrev pub raise_fuel : VmCtx P → ℕ
  raise_fuel c = suc (length c.exception_handlers + length c.frames)

  unfoldable pub handle_exception : ℕ → Value P → VmCtx P → Option (Outcome P)
  handle_exception depth value c = loop (raise_round depth) (raise_fuel c) (c, value)

  -- `while self.frames.len() > propagate_depth` of `Reply`.
  unfoldable pub unwind_frames : ℕ → List Frame → VmCtx P → Option (VmCtx P)
  unwind_frames depth [] c = some c
  unwind_frames depth (f ∷ fs) c = elim (ltb depth (suc (length fs))) [
    | true ↦ elim (leave_frame f fs c) [ none ↦ none | some c' ↦ unwind_frames depth fs c' ]
    | false ↦ some c
  ]

  abbrev replied : Value P → Option (VmCtx P) → Outcome P
  replied value none = panic
  replied value (some c) = done value c

  unfoldable pub handle_reply : ℕ → Value P → VmCtx P → Outcome P
  handle_reply depth value c = replied value (unwind_frames depth c.frames c)

  abbrev returned : ℕ → Value P → Option (VmCtx P) → Outcome P
  returned base value none = panic
  returned base value (some c) = go_on (push value (truncate base c))

  abbrev return_at : ℕ → Value P → List Frame → VmCtx P → Outcome P
  return_at depth value [] c = done value c
  return_at depth value (f ∷ fs) c =
      if ltb depth (suc (length fs))
      then returned f.stack_base value (leave_frame f fs c)
      else done value c

  unfoldable pub handle_return : ℕ → Value P → VmCtx P → Outcome P
  handle_return depth value c = return_at depth value c.frames c

  unfoldable pub handle_signal : Value P → Signal P → ℕ → VmCtx P → Option (Outcome P)
  handle_signal nil (break value) depth c = some (handle_break nil value c)
  handle_signal nil continue depth c = some (handle_continue c)
  handle_signal nil retry depth c = some (handle_retry c)
  handle_signal nil (user_exception value) depth c = handle_exception depth value c
  handle_signal nil (reply value) depth c = some (handle_reply depth value c)
  handle_signal nil (return value) depth c = some (handle_return depth value c)
  handle_signal nil (failure f) depth c = some (error (failure f) c)

  -- The handlers of the frames that were left are dropped.
  abbrev drop_handlers : ℕ → VmCtx P → VmCtx P
  drop_handlers caller c = record c {
    loop_handlers = retain (λ h. leb h.frame_depth caller) c.loop_handlers;
    exception_handlers = retain (λ h. leb h.frame_depth caller) c.exception_handlers;
    transact_handlers = retain (λ h. leb h.frame_depth caller) c.transact_handlers;
  }

  abbrev return_past : Value P → Frame → List Frame → Option (VmCtx P) → Outcome P
  return_past ret f fs none = panic
  return_past ret f fs (some c) =
      go_on (push ret (truncate f.stack_base (drop_handlers (length fs) c)))

  abbrev return_of : Value P → List Frame → VmCtx P → Outcome P
  return_of ret [] c = panic
  return_of ret (f ∷ fs) c =
      return_past ret f fs (close_above f.stack_base (record c { frames = fs }))

  unfoldable pub return_from_frame : Value P → VmCtx P → Outcome P
  return_from_frame ret c = return_of ret c.frames c
