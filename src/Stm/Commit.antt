-- ===== src/Stm/Commit.antt =====
-- Commits: the writes of an outermost transaction reach every cell at once, and a nested one
-- hands its view to its parent.
use y.Prelude.{ℕ, true, false, List, [], ◌∷◌, Option, none, some, ◌≡◌, ◌≢◌, refl, arith}
use y.Prelude.Maps.{Map, lookup, insert, lookup-insert, IsDistinct}
use y.Stm.{
  Value, SharedCell, TransactionContext, find_write, bump_cell, apply_writes, merge_writes, merge,
  conflicts, next_version,
}
use y.Stm.Reads.{observe}

module _ {P : Type 0} where
  -- What a committed write makes of a cell.
  abbrev pub committed : Option (Value P) → SharedCell P → SharedCell P
  committed none cell = cell
  committed (some v) cell = record { value = v; version = next_version cell.version }

  apply_writes-fresh :
      (writes : Map (Value P)) (cells : ℕ → SharedCell P) (b : ℕ)
      → lookup b writes ≡ none
      → apply_writes writes cells b ≡ cells b
  unfolding apply_writes lookup bump_cell
  apply_writes-fresh [] cells b h = refl
  apply_writes-fresh ((a, v) ∷ writes) cells b h =
      ground (arith, apply_writes-fresh writes (bump_cell a v cells) b)

  -- All the writes and only they reach the cells, each cell's version is bumped once.
  pub apply_writes-committed :
      (writes : Map (Value P)) (cells : ℕ → SharedCell P) (b : ℕ)
      → IsDistinct writes
      → apply_writes writes cells b ≡ committed (lookup b writes) (cells b)
  unfolding apply_writes lookup bump_cell
  apply_writes-committed [] cells b d = refl
  apply_writes-committed ((a, v) ∷ writes) cells b d = ground (
    arith,
    d.0,
    apply_writes-fresh writes (bump_cell a v cells) b,
    apply_writes-committed writes (bump_cell a v cells) b d.1,
  )

  lookup-merge_writes :
      (inner parent : Map (Value P)) (b : ℕ)
      → IsDistinct inner
      → lookup b (merge_writes inner parent)
        ≡ (elim (lookup b inner) [ none ↦ lookup b parent | some v ↦ some v ])
  unfolding merge_writes lookup
  lookup-merge_writes [] parent b d = refl
  lookup-merge_writes ((a, v) ∷ inner) parent b d =
      ground (
        arith,
        d.0,
        lookup-insert a b v parent,
        lookup-merge_writes inner (insert a v parent) b d.1,
      )

  -- Merging hands the child's view to its parent: with its write-set merged, every read answers
  -- what it answered inside the child.
  pub observe-merge :
      (inner parent : TransactionContext P) (stack : List (TransactionContext P))
      (cells : ℕ → SharedCell P) (b : ℕ)
      → IsDistinct inner.writes
      → observe b (record { cells = cells; txn_stack = merge inner parent ∷ stack })
        ≡ observe b (record { cells = cells; txn_stack = inner ∷ parent ∷ stack })
  unfolding observe find_write merge
  observe-merge inner parent stack cells b d =
      ground (arith, lookup-merge_writes inner.writes parent.writes b d)

  -- A read-set without conflict names the current version of every cell that was read.
  pub conflicts-none :
      (reads : Map ℕ) (cells : ℕ → SharedCell P) (a ver : ℕ)
      → conflicts reads cells ≡ false
      → lookup a reads ≡ some ver
      → (cells a).version ≡ ver
  unfolding conflicts lookup
  conflicts-none [] cells a ver c h = ground arith
  conflicts-none ((b, w) ∷ reads) cells a ver c h = ground (arith, conflicts-none reads cells a ver)

  -- When a read-set with one version for each cell names a version that is no longer the cell's, it
  -- has a conflict.
  pub conflicts-some :
      (reads : Map ℕ) (cells : ℕ → SharedCell P) (a ver : ℕ)
      → IsDistinct reads
      → lookup a reads ≡ some ver
      → (cells a).version ≢ ver
      → conflicts reads cells ≡ true
  unfolding conflicts lookup
  conflicts-some [] cells a ver d h n = ground arith
  conflicts-some ((b, w) ∷ reads) cells a ver d h n =
      ground (arith, conflicts-some reads cells a ver d.1)
