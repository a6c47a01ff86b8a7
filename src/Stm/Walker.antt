-- ===== src/Stm/Walker.antt =====
-- src/interpreter/mod.rs: `eval_transact` and `commit_txn` of the tree-walking interpreter. The body
-- is any function of the memory, the evaluation of an expression.
use y.Prelude.{ℕ, zero, suc, if◌then◌else◌, Bool, true, false, List, [], ◌∷◌, tail, ◌≡◌}
use y.Stm.{
  Value, SharedCell, TransactionContext, Memory, fresh_context, apply_writes, merge, conflicts,
}

-- How an evaluation ends: a value, one of the signals, another error, or the interpreter's own
-- failure after too many attempts; `imbalance` is the panic on an empty stack of contexts.
pub data Outcome (P : Type 0) (E : Type 0) : Type 0 where
  ok reply return : Value P → Outcome P E
  retry exceeded imbalance : Outcome P E
  raise : E → Outcome P E

pub data CommitOutcome (P : Type 0) : Type 0 where
  done : Value P → CommitOutcome P
  conflict : CommitOutcome P

abbrev pub max_retries : ℕ
max_retries = 64

abbrev pub memory : {P : Type 0} → (ℕ → SharedCell P) → List (TransactionContext P) → Memory P
memory cells stack = record { cells = cells; txn_stack = stack }

module _ {P : Type 0} where
  abbrev pub commit_into :
      TransactionContext P
      → Value P
      → (ℕ → SharedCell P)
      → List (TransactionContext P)
      → CommitOutcome P × Memory P
  commit_into inner result cells (parent ∷ stack) =
      (done result, memory cells (merge inner parent ∷ stack))
  commit_into inner result cells [] =
      if conflicts inner.reads cells
      then (conflict, memory cells [])
      else (done result, memory (apply_writes inner.writes cells) [])

  -- The context is already popped.
  unfoldable pub commit_txn : TransactionContext P → Value P → Memory P → CommitOutcome P × Memory P
  commit_txn inner result m = commit_into inner result m.cells m.txn_stack

pub data Attempt (P E : Type 0) : Type 0 where
  leave : Outcome P E × Memory P → Attempt P E
  restart : Memory P → Attempt P E

-- A body that touches no cell and only the innermost context of its transaction.
pub record Inside {P : Type 0} (cells : ℕ → SharedCell P) (stack : List (TransactionContext P))
    (m : Memory P) : Type 0 where
  pub top : TransactionContext P
  pub same : m ≡ memory cells (top ∷ stack)

module _ {P E : Type 0} where
  abbrev pub committed_attempt : Outcome P E → CommitOutcome P × Memory P → Attempt P E
  committed_attempt out (done _, m) = leave (out, m)
  committed_attempt out (conflict, m) = restart m

  abbrev pub commit_popped :
      Outcome P E → Value P → (ℕ → SharedCell P) → List (TransactionContext P) → Attempt P E
  commit_popped out v cells [] = leave (imbalance, memory cells [])
  commit_popped out v cells (inner ∷ stack) =
      committed_attempt out (commit_txn inner v (memory cells stack))

  -- The `match` on the body's result.
  unfoldable pub settle : Outcome P E → Memory P → Attempt P E
  settle (ok v) m = commit_popped (ok v) v m.cells m.txn_stack
  settle (reply v) m = commit_popped (reply v) v m.cells m.txn_stack
  settle (return v) m = commit_popped (return v) v m.cells m.txn_stack
  settle retry m = restart (memory m.cells (tail m.txn_stack))
  settle out m = leave (out, memory m.cells (tail m.txn_stack))

  unfoldable pub run_attempt : (Memory P → Outcome P E × Memory P) → Memory P → Attempt P E
  run_attempt body m =
      let (out, m') = body (memory m.cells (fresh_context ∷ m.txn_stack)) in settle out m'

  -- `for _attempt in 0..MAX_RETRIES`, with `left` attempts left.
  unfoldable pub attempts :
      ℕ → (Memory P → Outcome P E × Memory P) → Memory P → Outcome P E × Memory P
  attempts zero body m = (exceeded, m)
  attempts (suc left) body m = elim (run_attempt body m) [
    | leave r ↦ r
    | restart m' ↦ attempts left body m'
  ]

  unfoldable pub eval_transact :
      (Memory P → Outcome P E × Memory P) → Memory P → Outcome P E × Memory P
  eval_transact body m = attempts max_retries body m

  abbrev pub IsBuffered : (Memory P → Outcome P E × Memory P) → Type 0
  IsBuffered body =
      (cells : ℕ → SharedCell P) (top : TransactionContext P) (stack : List (TransactionContext P))
      → Inside cells stack (body (memory cells (top ∷ stack))).1

  abbrev pub succeeds : Outcome P E → Bool
  succeeds (ok v) = true
  succeeds (reply v) = true
  succeeds (return v) = true
  succeeds _ = false

  -- After the last attempt a `retry` is the interpreter's own failure.
  abbrev pub given_up : Outcome P E → Outcome P E
  given_up retry = exceeded
  given_up out = out

  -- What a transaction leaves, by what its body does in a fresh context: all the writes of a body that
  -- succeeds without conflict, or nothing, because it met a conflict or did not succeed.
  pub data AllOrNothing (body : Memory P → Outcome P E × Memory P) (cells : ℕ → SharedCell P)
      (r : Outcome P E × Memory P) : Type 0 where
    all_of :
        (out : Outcome P E) (inner : TransactionContext P)
        → body (memory cells (fresh_context ∷ [])) ≡ (out, memory cells (inner ∷ []))
        → succeeds out ≡ true
        → conflicts inner.reads cells ≡ false
        → r ≡ (out, memory (apply_writes inner.writes cells) [])
        → AllOrNothing body cells r
    conflicting :
        (out : Outcome P E) (inner : TransactionContext P)
        → body (memory cells (fresh_context ∷ [])) ≡ (out, memory cells (inner ∷ []))
        → succeeds out ≡ true
        → conflicts inner.reads cells ≡ true
        → r ≡ (exceeded, memory cells [])
        → AllOrNothing body cells r
    nothing :
        (out : Outcome P E) (inner : TransactionContext P)
        → body (memory cells (fresh_context ∷ [])) ≡ (out, memory cells (inner ∷ []))
        → succeeds out ≡ false
        → r ≡ (given_up out, memory cells [])
        → AllOrNothing body cells r
