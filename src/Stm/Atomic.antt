-- ===== src/Stm/Atomic.antt =====
-- The tree walker's transactions are atomic and nest: the proofs over `Stm/Walker.antt`.
use y.Prelude.{ℕ, zero, suc, List, [], ◌∷◌, ◌≡◌, refl}
use y.Prelude.Cases.{option_both}
use y.Stm.{
  Value, shared, plain, SharedCell, TransactionContext, Memory, fresh_context, merge, find_write,
  read_committed, read_shared, write_shared,
}
use y.Stm.Walker.{
  Outcome, ok, reply, return, retry, exceeded, memory, max_retries, commit_txn, Attempt, leave,
  restart, settle, run_attempt, attempts, eval_transact, Inside, IsBuffered, AllOrNothing,
}

module _ {P E : Type 0} where
  -- The run of the body in a fresh context.
  abbrev Ran :
      (Memory P → Outcome P E × Memory P)
      → (ℕ → SharedCell P)
      → Outcome P E
      → TransactionContext P
      → Type 0
  Ran body cells out inner =
      body (memory cells (fresh_context ∷ [])) ≡ (out, memory cells (inner ∷ []))

  -- What one attempt decides; when it restarts, the memory is as it was, and an attempt that is the last
  -- ends with a failure.
  data Tried (body : Memory P → Outcome P E × Memory P) (cells : ℕ → SharedCell P)
      : Attempt P E → Type 0 where
    left : {r : Outcome P E × Memory P} → AllOrNothing body cells r → Tried body cells (leave r)
    again :
        {m : Memory P}
        → m ≡ memory cells []
        → AllOrNothing body cells (exceeded, memory cells [])
        → Tried body cells (restart m)

  -- The same for a nested attempt, which never restarts on a conflict.
  data TriedInside (cells : ℕ → SharedCell P) (top : TransactionContext P)
      (stack : List (TransactionContext P)) : Attempt P E → Type 0 where
    left_inside :
        {r : Outcome P E × Memory P}
        → Inside cells stack r.1
        → TriedInside cells top stack (leave r)
    again_inside :
        {m : Memory P} → m ≡ memory cells (top ∷ stack) → TriedInside cells top stack (restart m)

  settle-TriedInside :
      (cells : ℕ → SharedCell P) (inner top : TransactionContext P)
      (stack : List (TransactionContext P)) (out : Outcome P E)
      → TriedInside cells top stack (settle out (memory cells (inner ∷ top ∷ stack)))
  unfolding settle commit_txn
  settle-TriedInside cells inner top stack (ok v) =
      left_inside (record { top = merge inner top; same = refl })
  settle-TriedInside cells inner top stack (reply v) =
      left_inside (record { top = merge inner top; same = refl })
  settle-TriedInside cells inner top stack (return v) =
      left_inside (record { top = merge inner top; same = refl })
  settle-TriedInside cells inner top stack retry = again_inside refl
  settle-TriedInside cells inner top stack _ = left_inside (record { top = top; same = refl })

  settled-Inside :
      (cells : ℕ → SharedCell P) (top : TransactionContext P) (stack : List (TransactionContext P))
      (go : Memory P → Outcome P E × Memory P) (a : Attempt P E)
      → TriedInside cells top stack a
      → Inside cells stack (go (memory cells (top ∷ stack))).1
      → Inside cells stack
          (let r : Outcome P E × Memory P = elim a [ leave r ↦ r | restart m ↦ go m ] in r).1
  settled-Inside cells top stack go (leave r) (left_inside h) k = h
  settled-Inside cells top stack go (restart m) (again_inside e) k = rw e k

  attempts-IsBuffered :
      (n : ℕ) (body : Memory P → Outcome P E × Memory P)
      → IsBuffered body
      → IsBuffered (attempts n body)
  unfolding attempts run_attempt
  attempts-IsBuffered zero body h cells top stack = record { top = top; same = refl }
  attempts-IsBuffered (suc n) body h cells top stack =
      let inside = h cells fresh_context (top ∷ stack) in
      settled-Inside cells top stack (attempts n body)
        (run_attempt body (memory cells (top ∷ stack)))
        (rw inside.same (
          settle-TriedInside cells inside.top top stack
            (body (memory cells (fresh_context ∷ top ∷ stack))).0))
        (attempts-IsBuffered n body h cells top stack)

  -- A nested transaction touches no cell and only the context of the transaction around it, so it
  -- may stand in the body of an atomic one.
  pub eval_transact-IsBuffered :
      (body : Memory P → Outcome P E × Memory P) → IsBuffered body → IsBuffered (eval_transact body)
  unfolding eval_transact
  eval_transact-IsBuffered body h = attempts-IsBuffered max_retries body h

-- A shared read and a shared write inside a transaction only buffer.
pub write_shared-Inside :
    {P : Type 0} (a : ℕ) (v : Value P) (cells : ℕ → SharedCell P) (top : TransactionContext P)
    (stack : List (TransactionContext P))
    → Inside cells stack (write_shared a v (memory cells (top ∷ stack)))
unfolding write_shared
write_shared-Inside a v cells top stack = record { top = _; same = refl }

pub read_shared-Inside :
    {P : Type 0} (w : Value P) (cells : ℕ → SharedCell P) (top : TransactionContext P)
    (stack : List (TransactionContext P))
    → Inside cells stack (read_shared w (memory cells (top ∷ stack))).1
unfolding read_shared read_committed
read_shared-Inside (plain p) cells top stack = record { top = top; same = refl }
read_shared-Inside {P} (shared a) cells top stack =
    option_both (λ (r : Value P × Memory P). Inside cells stack r.1) (find_write a (top ∷ stack))
      (record { top = _; same = refl }) (λ v. record { top = top; same = refl })
