-- ===== src/Vm/Machine.antt =====
-- src/vm/vm.rs: the execution state of one coroutine, VmCtx, with its handler stacks, and the shared
-- cells and upvalues that it reaches. The operand stack is a list, its bottom first; the stacks of
-- frames, handlers and transaction contexts have their top first. A frame keeps its instruction
-- pointer and the base of its part of the operand stack; the closure that it runs is not modelled.
use y.Prelude.{ℕ, ltb, true, false, List, [], ◌∷◌, ◌++◌, tail, take, length, Option, none, some}
use y.Stm.{Value, Memory, TransactionContext}
use y.Vm.Upvalue.{UpvalueState, close_upvalues_above}

pub record Frame : Type 0 where
  pub ip : ℕ
  pub stack_base : ℕ

pub record LoopHandler : Type 0 where
  pub continue_addr : ℕ
  pub break_addr : ℕ
  pub stack_depth : ℕ
  pub frame_depth : ℕ

pub record ExceptionHandler : Type 0 where
  pub rescue_pc : Option ℕ
  pub ensure_pc : Option ℕ
  pub stack_depth : ℕ
  pub frame_depth : ℕ

pub record TransactHandler : Type 0 where
  pub retry_addr : ℕ
  pub stack_depth : ℕ
  pub frame_depth : ℕ
  pub retry_count : ℕ

pub record VmCtx (P : Type 0) : Type 0 where
  pub frames : List Frame
  pub stack : List (Value P)
  pub open_upvalues : List ℕ
  pub upvalues : ℕ → UpvalueState (Value P)
  pub loop_handlers : List LoopHandler
  pub exception_handlers : List ExceptionHandler
  pub pending_exception : Option (Value P)
  pub transact_handlers : List TransactHandler
  pub memory : Memory P

-- The errors that the modelled code raises itself.
pub data Failure : Type 0 where
  break_outside_loop continue_outside_loop retry_outside_transact exceeded_retries : Failure

-- InterpreterError: the control-flow signals, and the errors.
pub data Signal (P : Type 0) : Type 0 where
  break : Option (Value P) → Signal P
  continue retry : Signal P
  user_exception reply return : Value P → Signal P
  failure : Failure → Signal P

-- How a step or the handling of a signal ends: it goes on, hands a value out, raises, or panics.
pub data Outcome (P : Type 0) : Type 0 where
  go_on : VmCtx P → Outcome P
  done : Value P → VmCtx P → Outcome P
  error : Signal P → VmCtx P → Outcome P
  panic : Outcome P

abbrev pub max_txn_retries : ℕ
max_txn_retries = 64

module _ {P : Type 0} where
  abbrev pub frame_depth : VmCtx P → ℕ
  frame_depth c = length c.frames

  abbrev pub push : Value P → VmCtx P → VmCtx P
  push v c = record c { stack = c.stack ++ v ∷ [] }

  abbrev pub truncate : ℕ → VmCtx P → VmCtx P
  truncate n c = record c { stack = take n c.stack }

  abbrev pub popped : List (Value P) → VmCtx P → Option (VmCtx P)
  popped [] c = none
  popped (v ∷ vs) c = some (truncate (length vs) c)

  -- `self.pop()`, the value dropped; `none` is the panic on an empty stack.
  abbrev pub pop : VmCtx P → Option (VmCtx P)
  pop c = popped c.stack c

  abbrev pub set_top_ip : ℕ → List Frame → VmCtx P → Option (VmCtx P)
  set_top_ip addr [] c = none
  set_top_ip addr (f ∷ fs) c = some (record c { frames = record f { ip = addr } ∷ fs })

  -- `none` is the panic without a frame.
  abbrev pub set_ip : ℕ → VmCtx P → Option (VmCtx P)
  set_ip addr c = set_top_ip addr c.frames c

  abbrev pub resumed : Option (VmCtx P) → Outcome P
  resumed none = panic
  resumed (some c) = go_on c

  abbrev pub with_txns : List (TransactionContext P) → VmCtx P → VmCtx P
  with_txns stack c = record c { memory = record c.memory { txn_stack = stack } }

  abbrev pub txn_stack : VmCtx P → List (TransactionContext P)
  txn_stack c = c.memory.txn_stack

  -- The loop of `cleanup_transact_above` over the two stacks.
  unfoldable pub cleanup :
      ℕ
      → List TransactHandler
      → List (TransactionContext P)
      → List TransactHandler × List (TransactionContext P)
  cleanup floor [] txns = ([], txns)
  cleanup floor (h ∷ hs) txns = elim (ltb floor h.stack_depth) [
    | true ↦ cleanup floor hs (tail txns)
    | false ↦ (h ∷ hs, txns)
  ]

  unfoldable pub cleanup_transact_above : ℕ → VmCtx P → VmCtx P
  cleanup_transact_above floor c =
      let (hs, txns) = cleanup floor c.transact_handlers c.memory.txn_stack in
      with_txns txns (record c { transact_handlers = hs })

  -- The closing of upvalues on the whole state.
  unfoldable pub close_above : ℕ → VmCtx P → Option (VmCtx P)
  close_above floor c = elim (close_upvalues_above floor c.stack c.upvalues c.open_upvalues) [
    | none ↦ none
    | some k ↦ some (record c { upvalues = k.heap; open_upvalues = k.still_open })
  ]
