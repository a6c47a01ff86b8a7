-- ===== src/Stm/Examples.antt =====
-- Runs of transactions on two shared cells.
use y.Prelude.{ℕ, ◌==◌, if◌then◌else◌, true, false, [], ◌∷◌, some, ◌≡◌, refl, arith}
use y.Prelude.Maps.{lookup, insert, IsDistinct}
use y.Stm.{
  shared, plain, SharedCell, TransactionContext, Memory, read_shared, write_shared, bump_cell,
  apply_writes, merge, conflicts, fresh_context,
}
use y.Stm.Reads.{observe, read-write, read-keeps, cells-write_shared}
use y.Stm.Commit.{committed, apply_writes-committed, observe-merge, conflicts-none, conflicts-some}
use y.Stm.Walker.{
  Outcome, ok, raise, retry, exceeded, memory, commit_txn, settle, run_attempt, attempts,
  eval_transact, IsBuffered,
}
use y.Stm.Atomic.{eval_transact-IsBuffered, write_shared-Inside}

-- Cell 1 holds 10, every other 0; all are at version 0.
abbrev cells : ℕ → SharedCell ℕ
cells a = record { value = plain (if a == 1 then 10 else 0); version = 0 }

-- A context that has read cell 1 and written cell 2.
abbrev ctx : TransactionContext ℕ
ctx = record { writes = (2, plain 7) ∷ []; reads = (1, 0) ∷ [] }

abbrev start : Memory ℕ
start = memory cells (ctx ∷ [])

-- The body `c2 = 5`, which answers 5.
abbrev body : Memory ℕ → Outcome ℕ ℕ × Memory ℕ
body m = (ok (plain 5), write_shared 2 (plain 5) m)

body-IsBuffered : IsBuffered body
body-IsBuffered cells' top stack = write_shared-Inside 2 (plain 5) cells' top stack

writes-IsDistinct : IsDistinct ctx.writes
unfolding lookup
writes-IsDistinct = (refl, tt)

reads-IsDistinct : IsDistinct ctx.reads
unfolding lookup
reads-IsDistinct = (refl, tt)

read_one : lookup 1 ctx.reads ≡ some 0
unfolding lookup
read_one = refl

current : conflicts ctx.reads cells ≡ false
unfolding conflicts
current = refl

-- A transaction around `body` leaves the value in the cell at the next version; one that raises
-- leaves nothing; one that always retries gives up.
after_body :
    (eval_transact body (memory cells [])).1.cells 2 ≡ record { value = plain 5; version = 1 }
unfolding eval_transact attempts run_attempt settle commit_txn conflicts apply_writes bump_cell
    write_shared insert
after_body = refl

after_raise :
    (let r : Outcome ℕ ℕ × Memory ℕ =
        eval_transact (λ m. (raise 3, write_shared 2 (plain 5) m)) (memory cells []) in
      r.1.cells 2)
    ≡ cells 2
unfolding eval_transact attempts run_attempt settle write_shared insert
after_raise = refl

after_retries :
    (let r : Outcome ℕ ℕ × Memory ℕ = eval_transact (λ m. (retry, m)) (memory cells []) in r.0)
    ≡ exceeded
unfolding eval_transact attempts run_attempt settle
after_retries = refl

eval_transact-IsBuffered_example : IsBuffered (eval_transact body)
eval_transact-IsBuffered_example = eval_transact-IsBuffered body body-IsBuffered

apply_writes-committed_example :
    apply_writes ctx.writes cells 2 ≡ committed (lookup 2 ctx.writes) (cells 2)
apply_writes-committed_example = apply_writes-committed ctx.writes cells 2 writes-IsDistinct

observe-merge_example :
    observe 2 (record { cells = cells; txn_stack = merge ctx fresh_context ∷ [] })
    ≡ observe 2 (record { cells = cells; txn_stack = ctx ∷ fresh_context ∷ [] })
observe-merge_example = observe-merge ctx fresh_context [] cells 2 writes-IsDistinct

read-write_example :
    (read_shared (shared 1) (write_shared 1 (plain 9) start)).0
    ≡ (if 1 == 1 then plain 9 else (read_shared (shared 1) start).0)
read-write_example = read-write 1 1 (plain 9) start

read-keeps_example :
    ((read_shared (shared 1) start).1.cells 2 ≡ start.cells 2)
    × ((read_shared (shared 2) (read_shared (shared 1) start).1).0
        ≡ (read_shared (shared 2) start).0)
read-keeps_example = read-keeps (shared 1) 2 start

cells-write_shared_example : (write_shared 1 (plain 9) start).cells 1 ≡ start.cells 1
cells-write_shared_example = cells-write_shared 1 1 (plain 9) start (λ e. ground arith)

conflicts-none_example : (cells 1).version ≡ 0
conflicts-none_example = conflicts-none ctx.reads cells 1 0 current read_one

conflicts-some_example : conflicts ctx.reads (bump_cell 1 (plain 3) cells) ≡ true
conflicts-some_example =
    conflicts-some ctx.reads (bump_cell 1 (plain 3) cells) 1 0 reads-IsDistinct read_one
      (unfold bump_cell in λ e. omega (arith, e))
