-- ===== src/Vm/Examples.antt =====
-- Runs of the virtual machine's transactions, exceptions and upvalues.
use y.Prelude.{
  ℕ, ◌==◌, if◌then◌else◌, true, List, [], ◌∷◌, take, none, some, inl, ◌+◌, ◌≡◌, ◌≢◌, ◌↔◌, ◌++◌,
  refl, arith, All,
}
use y.Stm.{plain, SharedCell, TransactionContext, fresh_context, conflicts, merge}
use y.Vm.Chunk.{const_op, end_op, as_u8, opcode_from_u8, read_u16, write_u16}
use y.Vm.Encoding.{opcode_from_u8_iff, read_u16-write_u16}
use y.Vm.Upvalue.{UpvalueState, open_at, closed, read, Closing, close_upvalues_above}
use y.Vm.Capture.{close_upvalues_above-read}
use y.Vm.Machine.{VmCtx, ExceptionHandler, TransactHandler, Outcome, go_on, panic}
use y.Vm.Transact.{push_transact, transact_commit, handle_retry}
use y.Vm.Unwind.{handle_exception, return_from_frame}
use y.Vm.Balance.{EndsBalanced, handle_exception-Balanced}
use y.Vm.Retries.{Retried, handle_retry-Retried}
use y.Vm.Commits.{
  Committed, transact_commit-Committed, in_transact, buffer, conflict_loses_writes, reentry_panics,
}
use y.Vm.Rescue.{trying, rescue_keeps_transact, running, return_keeps_context}

-- Cell 1 is at version 1, every other at version 0.
abbrev cells : ℕ → SharedCell ℕ
cells a = record { value = plain 0; version = if a == 1 then 1 else 0 }

-- It has read cell 1 at version 0.
abbrev stale : TransactionContext ℕ
stale = record { writes = []; reads = (1, 0) ∷ [] }

abbrev writing : TransactionContext ℕ
writing = record { writes = (2, plain 7) ∷ []; reads = [] }

abbrev handler : TransactHandler
handler = record { retry_addr = 4; stack_depth = 1; frame_depth = 1; retry_count = 0 }

abbrev try_handler : ExceptionHandler
try_handler = record { rescue_pc = none; ensure_pc = none; stack_depth = 1; frame_depth = 1 }

-- One frame, one local, and no transaction.
abbrev machine : VmCtx ℕ
machine = record {
  frames = record { ip = 9; stack_base = 0 } ∷ [];
  stack = plain 3 ∷ [];
  open_upvalues = [];
  upvalues = λ w. closed (plain 0);
  loop_handlers = [];
  exception_handlers = try_handler ∷ [];
  pending_exception = none;
  transact_handlers = [];
  memory = record { cells = cells; txn_stack = [] };
}

framed : machine.frames ≢ []
framed e = ground (arith, e)

filled : machine.stack ≢ []
filled e = ground (arith, e)

abbrev inside : VmCtx ℕ
inside = in_transact handler writing machine

clash : conflicts stale.reads cells ≡ true
unfolding conflicts
clash = refl

-- A called frame that captured its local, within a `try` of the caller.
abbrev rescuing : VmCtx ℕ
rescuing = record inside {
  frames = record { ip = 2; stack_base = 1 } ∷ record { ip = 9; stack_base = 0 } ∷ [];
  stack = plain 3 ∷ plain 4 ∷ [];
  open_upvalues = 7 ∷ [];
  upvalues = λ w. open_at 1;
  exception_handlers = record try_handler { rescue_pc = some 20 } ∷ [];
}

handle_exception-Balanced_example :
    (o : Outcome ℕ) × (handle_exception 0 (plain 5) rescuing ≡ some o) × EndsBalanced o
handle_exception-Balanced_example =
    handle_exception-Balanced 0 (plain 5) rescuing
      (refl, (omega arith, tt), ((omega arith, inl (λ e. ground (arith, e))), tt))

handle_retry-Retried_example : Retried inside (handle_retry inside)
handle_retry-Retried_example = handle_retry-Retried inside refl framed

transact_commit-Committed_example : Committed inside (transact_commit inside)
transact_commit-Committed_example =
    transact_commit-Committed inside refl (λ e. ground arith) framed filled

conflict_loses_writes_example :
    (again after : VmCtx ℕ) × (transact_commit (in_transact handler stale machine) ≡ go_on again)
    × (transact_commit (buffer writing (push_transact 4 again)) ≡ go_on after)
    × (after.transact_handlers ≡ [])
    × (after.memory ≡ (record { cells = cells; txn_stack = merge writing fresh_context ∷ [] }))
conflict_loses_writes_example =
    conflict_loses_writes machine handler stale writing clash (omega arith) framed filled

reentry_panics_example :
    (after : VmCtx ℕ) × (transact_commit
        (buffer writing (push_transact 4 (in_transact handler fresh_context machine)))
      ≡ go_on after)
    × (transact_commit after ≡ panic)
reentry_panics_example = reentry_panics machine handler fresh_context writing

rescue_keeps_transact_example :
    (c' : VmCtx ℕ) × (handle_exception 0 (plain 5) (trying try_handler 20 handler machine)
      ≡ some (go_on c'))
    × (c'.transact_handlers ≡ handler ∷ [])
    × (c'.memory ≡ machine.memory)
rescue_keeps_transact_example =
    rescue_keeps_transact 0 20 (plain 5) try_handler handler machine (omega arith) framed

-- A stack of three slots, and an upvalue open at the upper two each.
abbrev slots : List ℕ
slots = 10 ∷ 20 ∷ 30 ∷ []

abbrev heap : ℕ → UpvalueState ℕ
heap w = open_at (if w == 7 then 2 else 1)

close_upvalues_above-read_example :
    (c : Closing ℕ) × (close_upvalues_above 1 slots heap (7 ∷ 8 ∷ []) ≡ some c)
    × All (λ w. read (c.heap w) (take 1 slots) ≡ read (heap w) slots) (7 ∷ 8 ∷ [])
close_upvalues_above-read_example =
    close_upvalues_above-read 1 slots heap (7 ∷ 8 ∷ []) (omega arith, (omega arith, tt))

return_keeps_context_example :
    (c' : VmCtx ℕ) × (return_from_frame
        (plain 6)
        (running (record { ip = 9; stack_base = 0 }) [] handler writing machine)
      ≡ go_on c')
    × (c'.transact_handlers ≡ [])
    × (c'.memory ≡ (record { cells = cells; txn_stack = writing ∷ [] }))
return_keeps_context_example =
    return_keeps_context (record { ip = 9; stack_base = 0 }) [] handler writing machine (plain 6)
      refl

opcode_from_u8_iff_example :
    (opcode_from_u8 3 ≡ some const_op) ↔ ((as_u8 const_op ≡ 3) × (const_op ≢ end_op))
opcode_from_u8_iff_example = opcode_from_u8_iff 3 const_op

read_u16-write_u16_example : read_u16 (write_u16 (7 ∷ []) 0x1234 ++ 9 ∷ []) 1 ≡ some (0x1234, 1 + 2)
read_u16-write_u16_example = read_u16-write_u16 (7 ∷ []) (9 ∷ []) 0x1234 (omega arith)
