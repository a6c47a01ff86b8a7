-- ===== src/Vm/Rescue.antt =====
-- Exceptions and returns out of transactions.
use y.Prelude.{
  ℕ, suc, ◌+◌, ◌≤◌, leb, false, List, [], ◌∷◌, length, some, ◌≡◌, ◌≢◌, ◌∙◌, refl, ap, arith,
}
use y.Prelude.Loop.{finish, loop, next}
use y.Stm.{Value, TransactionContext}
use y.Vm.Machine.{
  Frame, close_above, VmCtx, ExceptionHandler, TransactHandler, Outcome, go_on, cleanup,
  cleanup_transact_above, truncate, frame_depth, push, resumed, set_ip, set_top_ip,
}
use y.Vm.Balance.{nonempty}
use y.Vm.Commits.{in_transact}
use y.Vm.Upvalue.{close_upvalues_above}
use y.Vm.Unwind.{return_from_frame, find_exception, enter_handler, raise_round, handle_exception}

find_exception-top :
    (depth : ℕ) (h : ExceptionHandler) (hs : List ExceptionHandler)
    → h.frame_depth ≡ depth
    → find_exception depth (h ∷ hs) ≡ some (h, hs)
unfolding find_exception
find_exception-top depth h hs e = ground arith

cleanup-low :
    {P : Type 0} (floor : ℕ) (h : TransactHandler) (hs : List TransactHandler)
    (txns : List (TransactionContext P))
    → h.stack_depth ≤ floor
    → cleanup floor (h ∷ hs) txns ≡ (h ∷ hs, txns)
unfolding cleanup
cleanup-low floor h hs txns le = ground arith

module _ {P : Type 0} where
  -- A machine inside a `try` with a rescue at `pc`, and in the transaction of `h`.
  abbrev pub trying : ExceptionHandler → ℕ → TransactHandler → VmCtx P → VmCtx P
  trying e pc h c = record c {
    exception_handlers =
        record e { rescue_pc = some pc; frame_depth = frame_depth c } ∷ c.exception_handlers;
    transact_handlers = h ∷ c.transact_handlers;
  }

  enter_handler-low :
      (e : ExceptionHandler) (es : List ExceptionHandler) (pc : ℕ) (h : TransactHandler)
      (c : VmCtx P) (v : Value P)
      → h.stack_depth ≤ e.stack_depth
      → enter_handler (record e { rescue_pc = some pc }) es (trying e pc h c) v
        ≡ finish (
            resumed (
              set_ip pc (
                push v (
                  truncate e.stack_depth (record c {
                    exception_handlers = es;
                    pending_exception = some v;
                    transact_handlers = h ∷ c.transact_handlers;
                  })))))
  unfolding enter_handler cleanup_transact_above
  enter_handler-low e es pc h c v le =
      rw (cleanup-low e.stack_depth h c.transact_handlers c.memory.txn_stack le) refl

  caught : ExceptionHandler → ℕ → Value P → TransactHandler → VmCtx P → Outcome P
  caught e pc v h c = resumed (
      set_ip pc (
        push v (
          truncate e.stack_depth (record c {
            pending_exception = some v;
            transact_handlers = h ∷ c.transact_handlers;
          }))))

  raise_round-caught :
      (depth pc : ℕ) (v : Value P) (e : ExceptionHandler) (h : TransactHandler) (c : VmCtx P)
      → h.stack_depth ≤ e.stack_depth
      → raise_round depth (trying e pc h c, v) ≡ some (finish (caught e pc v h c))
  unfolding raise_round caught
  raise_round-caught depth pc v e h c le =
      let e' = record e { rescue_pc = some pc; frame_depth = frame_depth c } in
      rw (find_exception-top (frame_depth c) e' c.exception_handlers refl, raise_round)
        (ap some (enter_handler-low e' c.exception_handlers pc h c v le))

  -- In a frame, a rescue leaves a transaction open that was entered at no greater height of the operand stack
  -- than the `try`: its handler and its context stay, be it around the `try` or within.
  pub rescue_keeps_transact :
      (depth pc : ℕ) (v : Value P) (e : ExceptionHandler) (h : TransactHandler) (c : VmCtx P)
      → h.stack_depth ≤ e.stack_depth
      → c.frames ≢ []
      → (c' : VmCtx P) × (handle_exception depth v (trying e pc h c) ≡ some (go_on c'))
        × (c'.transact_handlers ≡ h ∷ c.transact_handlers)
        × (c'.memory ≡ c.memory)
  unfolding handle_exception loop caught
  rescue_keeps_transact depth pc v e h c le framed =
      let fuel = length (e ∷ c.exception_handlers) + length c.frames in
      let (f, fs, ef) = nonempty c.frames framed in
      let kept : VmCtx P = push v (
        truncate e.stack_depth
          (record c { pending_exception = some v; transact_handlers = h ∷ c.transact_handlers })) in
      (
        record kept { frames = record f { ip = pc } ∷ fs },
        ap (next (loop (raise_round depth) fuel)) (raise_round-caught depth pc v e h c le)
            ∙ ap (λ x. some (resumed (set_top_ip pc x kept))) ef,
        refl,
        refl,
      )

  -- A machine in the transaction of `h`, entered in its top frame `f`, with no open upvalue.
  abbrev pub running :
      Frame → List Frame → TransactHandler → TransactionContext P → VmCtx P → VmCtx P
  running f fs h ctx c = in_transact h ctx (record c { frames = f ∷ fs; open_upvalues = [] })

  -- A return out of a transaction that the top frame entered, with no upvalue open, drops the handler
  -- and leaves the context with its writes: no cell changes and the context is not popped.
  pub return_keeps_context :
      (f : Frame) (fs : List Frame) (h : TransactHandler) (ctx : TransactionContext P) (c : VmCtx P)
      (ret : Value P)
      → h.frame_depth ≡ suc (length fs)
      → (c' : VmCtx P) × (return_from_frame ret (running f fs h ctx c) ≡ go_on c')
        × (c'.transact_handlers ≡ [])
        × (c'.memory ≡ (record { cells = c.memory.cells; txn_stack = ctx ∷ [] }))
  unfolding return_from_frame close_above close_upvalues_above
  return_keeps_context f fs h ctx c ret e =
      let gone : leb h.frame_depth (length fs) ≡ false = ground arith in
      (_, refl, rw gone refl, refl)
