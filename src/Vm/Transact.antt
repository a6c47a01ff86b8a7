-- ===== src/Vm/Transact.antt =====
-- src/vm/vm.rs: the opcodes `PushTransact` and `TransactCommit`, and the `Retry` signal.
use y.Prelude.{
  ℕ, ◌+◌, ltb, ◌==◌, if◌then◌else◌, Bool, true, false, List, [], ◌∷◌, tail, length, Option, none,
  some,
}
use y.Stm.{TransactionContext, fresh_context, conflicts, apply_writes, merge}
use y.Vm.Machine.{
  VmCtx, TransactHandler, exceeded_retries, retry_outside_transact, failure, Outcome, go_on, error,
  panic, max_txn_retries, frame_depth, truncate, pop, resumed, set_ip, with_txns,
}

-- `transact_handlers.last().map(|h| h.retry_addr == self_addr).unwrap_or(false)`
abbrev pub targets : ℕ → List TransactHandler → Bool
targets addr [] = false
targets addr (h ∷ hs) = h.retry_addr == addr

-- The topmost handler of the current frame, what lies below it, and the contexts once those of
-- the handlers above it are popped.
pub record Found (P : Type 0) : Type 0 where
  pub handler : TransactHandler
  pub others : List TransactHandler
  pub txns : List (TransactionContext P)

module _ {P : Type 0} where
  abbrev pub new_handler : ℕ → VmCtx P → TransactHandler
  new_handler self_addr c = record {
    retry_addr = self_addr;
    stack_depth = length c.stack;
    frame_depth = frame_depth c;
    retry_count = 0;
  }

  unfoldable pub push_transact : ℕ → VmCtx P → VmCtx P
  push_transact self_addr c =
      let hs =
        if targets self_addr c.transact_handlers
        then c.transact_handlers
        else new_handler self_addr c ∷ c.transact_handlers in
      with_txns (fresh_context ∷ c.memory.txn_stack) (record c { transact_handlers = hs })

  -- `self.pop()` behind a `set_ip`.
  abbrev pub and_pop : Option (VmCtx P) → Option (VmCtx P)
  and_pop none = none
  and_pop (some c) = pop c

  -- A conflict of the outermost transaction: `h` is the top handler, the contexts are gone.
  unfoldable pub commit_conflict : TransactHandler → List TransactHandler → VmCtx P → Outcome P
  commit_conflict h hs c =
      if ltb max_txn_retries (h.retry_count + 1)
      then error (failure exceeded_retries) (record c { transact_handlers = hs })
      else resumed (
          and_pop (
            set_ip h.retry_addr (
              with_txns (fresh_context ∷ c.memory.txn_stack) (record c {
                transact_handlers = record h { retry_count = h.retry_count + 1 } ∷ hs;
              }))))

  -- `ctx` is the popped context, `stack` what is left of the contexts.
  unfoldable pub commit_popped :
      TransactionContext P
      → List (TransactionContext P)
      → TransactHandler
      → List TransactHandler
      → VmCtx P
      → Outcome P
  commit_popped ctx [] h hs c =
      if conflicts ctx.reads c.memory.cells
      then commit_conflict h hs (with_txns [] c)
      else go_on (record c {
        transact_handlers = hs;
        memory = record { cells = apply_writes ctx.writes c.memory.cells; txn_stack = [] };
      })
  commit_popped ctx (parent ∷ stack) h hs c =
      go_on (with_txns (merge ctx parent ∷ stack) (record c { transact_handlers = hs }))

  abbrev pub commit_with : List (TransactionContext P) → List TransactHandler → VmCtx P → Outcome P
  commit_with (ctx ∷ stack) (h ∷ hs) c = commit_popped ctx stack h hs c
  commit_with _ _ c = panic

  unfoldable pub transact_commit : VmCtx P → Outcome P
  transact_commit c = commit_with c.memory.txn_stack c.transact_handlers c

  unfoldable pub find_handler :
      ℕ → List TransactHandler → List (TransactionContext P) → Option (Found P)
  find_handler depth [] txns = none
  find_handler depth (h ∷ hs) txns = elim (h.frame_depth == depth) [
    | true ↦ some (record { handler = h; others = hs; txns = txns })
    | false ↦ find_handler depth hs (tail txns)
  ]

  unfoldable pub retry_found : Found P → VmCtx P → Outcome P
  retry_found f c =
      let h = f.handler in
      let c' = truncate h.stack_depth (with_txns (tail f.txns) c) in
      if ltb max_txn_retries (h.retry_count + 1)
      then error (failure exceeded_retries) (record c' { transact_handlers = f.others })
      else resumed (
          set_ip h.retry_addr (record c' {
            transact_handlers = record h { retry_count = h.retry_count + 1 } ∷ f.others;
          }))

  -- `handle_signal` on `Retry`.
  unfoldable pub handle_retry : VmCtx P → Outcome P
  handle_retry c = elim (find_handler (frame_depth c) c.transact_handlers c.memory.txn_stack) [
    | none ↦ error (failure retry_outside_transact) c
    | some f ↦ retry_found f c
  ]
