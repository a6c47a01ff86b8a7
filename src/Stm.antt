-- ===== src/Stm.antt =====
-- Software transactional memory: SharedCell of src/value.rs, TransactionContext and the shared
-- reads and writes of src/vm/vm.rs, which src/interpreter/mod.rs has in the same form. An address
-- is the `Rc` pointer by which the code keys its maps: a SharedRef keeps its cell alive, so every
-- address names a cell. `P` stands for the values that are no SharedRef.
pub mod Reads
pub mod Commit
pub mod Walker
pub mod Atomic
pub mod Examples
use y.Prelude.{
  ℕ, ◌+◌, ◌%◌, ◌^◌, ◌==◌, if◌then◌else◌, is_empty, Bool, true, false, ◌||◌, not, List, [], ◌∷◌,
  Option, none, some,
}
use y.Prelude.Maps.{Map, lookup, insert}

pub data Value (P : Type 0) : Type 0 where
  shared : ℕ → Value P
  plain : P → Value P

pub record SharedCell (P : Type 0) : Type 0 where
  pub value : Value P
  pub version : ℕ

pub record TransactionContext (P : Type 0) : Type 0 where
  pub writes : Map (Value P)
  pub reads : Map ℕ

-- What the transactional code works on: the cells by address, and the stack of transaction
-- contexts, the innermost first.
pub record Memory (P : Type 0) : Type 0 where
  pub cells : ℕ → SharedCell P
  pub txn_stack : List (TransactionContext P)

-- `version += 1` on a `u64`, in a release build.
abbrev pub next_version : ℕ → ℕ
next_version v = (v + 1) % 2 ^ 64

-- `reads.entry(id).or_insert(ver)`.
unfoldable pub or_insert : ℕ → ℕ → Map ℕ → Map ℕ
or_insert a ver reads = elim (lookup a reads) [ none ↦ insert a ver reads | some _ ↦ reads ]

unfoldable pub merge_reads : Map ℕ → Map ℕ → Map ℕ
merge_reads [] parent = parent
merge_reads ((a, ver) ∷ reads) parent = merge_reads reads (or_insert a ver parent)

module _ {P : Type 0} where
  abbrev pub fresh_context : TransactionContext P
  fresh_context = record { writes = []; reads = [] }

  -- `cell.value = v; cell.version += 1`.
  unfoldable pub bump_cell : ℕ → Value P → (ℕ → SharedCell P) → ℕ → SharedCell P
  bump_cell a v cells b =
      if a == b then record { value = v; version = next_version (cells a).version } else cells b

  -- The first write-set, from the innermost, that has the address.
  unfoldable pub find_write : ℕ → List (TransactionContext P) → Option (Value P)
  find_write a [] = none
  find_write a (ctx ∷ stack) = elim (lookup a ctx.writes) [
    | none ↦ find_write a stack
    | some v ↦ some v
  ]

  abbrev pub record_read : ℕ → ℕ → List (TransactionContext P) → List (TransactionContext P)
  record_read a ver [] = []
  record_read a ver (ctx ∷ stack) = record ctx { reads = or_insert a ver ctx.reads } ∷ stack

  -- The read of the committed value.
  unfoldable pub read_committed : ℕ → Memory P → Value P × Memory P
  read_committed a m =
      let cell = m.cells a in
      (cell.value, record m { txn_stack = record_read a cell.version m.txn_stack })

  unfoldable pub read_shared : Value P → Memory P → Value P × Memory P
  read_shared (plain p) m = (plain p, m)
  read_shared (shared a) m = elim (find_write a m.txn_stack) [
    | none ↦ read_committed a m
    | some v ↦ (v, m)
  ]

  abbrev write_in : ℕ → Value P → Memory P → List (TransactionContext P) → Memory P
  write_in a v m [] = record m { cells = bump_cell a v m.cells }
  write_in a v m (ctx ∷ stack) = record m {
    txn_stack = record ctx { writes = insert a v ctx.writes } ∷ stack;
  }

  unfoldable pub write_shared : ℕ → Value P → Memory P → Memory P
  write_shared a v m = write_in a v m m.txn_stack

  -- `reads.values().any(|(rref, ver)| version(rref) != ver)`.
  unfoldable pub conflicts : Map ℕ → (ℕ → SharedCell P) → Bool
  conflicts [] cells = false
  conflicts ((a, ver) ∷ reads) cells = not ((cells a).version == ver) || conflicts reads cells

  -- `for (_, (rref, val)) in &ctx.writes`: every write applied, every version bumped.
  unfoldable pub apply_writes : Map (Value P) → (ℕ → SharedCell P) → ℕ → SharedCell P
  apply_writes [] cells = cells
  apply_writes ((a, v) ∷ writes) cells = apply_writes writes (bump_cell a v cells)

  unfoldable pub merge_writes : Map (Value P) → Map (Value P) → Map (Value P)
  merge_writes [] parent = parent
  merge_writes ((a, v) ∷ writes) parent = merge_writes writes (insert a v parent)

  -- The nested commit: into the parent's sets.
  unfoldable pub merge : TransactionContext P → TransactionContext P → TransactionContext P
  merge inner parent = record {
    writes = merge_writes inner.writes parent.writes;
    reads = merge_reads inner.reads parent.reads;
  }
