-- ===== src/Stm/Reads.antt =====
-- Shared reads and writes inside a transaction.
use y.Prelude.{
  ℕ, ◌==◌, if◌then◌else◌, List, [], ◌∷◌, none, some, ◌≡◌, ◌≢◌, refl, sym, ap, ◌∙◌, arith,
}
use y.Prelude.Maps.{insert, lookup-insert}
use y.Prelude.Cases.{option_both}
use y.Stm.{
  Value, shared, plain, SharedCell, TransactionContext, Memory, find_write, record_read,
  read_committed, read_shared, write_shared, bump_cell,
}

module _ {P : Type 0} where
  -- What a read at an address answers, with the bookkeeping left out.
  unfoldable pub observe : ℕ → Memory P → Value P
  observe a m = elim (find_write a m.txn_stack) [ none ↦ (m.cells a).value | some v ↦ v ]

  observe-read : (a : ℕ) (m : Memory P) → (read_shared (shared a) m).0 ≡ observe a m
  unfolding read_shared observe read_committed
  observe-read a m = ground arith

  find_write-insert :
      (a b : ℕ) (v : Value P) (ctx : TransactionContext P) (stack : List (TransactionContext P))
      → find_write b (record ctx { writes = insert a v ctx.writes } ∷ stack)
        ≡ (if a == b then some v else find_write b (ctx ∷ stack))
  unfolding find_write
  find_write-insert a b v ctx stack = ground (arith, lookup-insert a b v ctx.writes)

  write_at :
      (a b : ℕ) (v : Value P) (cells : ℕ → SharedCell P) (stack : List (TransactionContext P))
      → observe b (write_shared a v (record { cells = cells; txn_stack = stack }))
        ≡ (if a == b then v else observe b (record { cells = cells; txn_stack = stack }))
  unfolding observe write_shared bump_cell
  write_at a b v cells [] = unfold find_write in ground arith
  write_at a b v cells (ctx ∷ stack) = ground (arith, find_write-insert a b v ctx stack)

  -- Inside a transaction of any depth and outside of one, a read after a write answers the value
  -- written at that address and what it answered before at every other address.
  pub read-write :
      (a b : ℕ) (v : Value P) (m : Memory P)
      → (read_shared (shared b) (write_shared a v m)).0
        ≡ (if a == b then v else (read_shared (shared b) m).0)
  read-write a b v m =
      observe-read b (write_shared a v m)
      ∙ write_at a b v m.cells m.txn_stack
      ∙ ap (λ x. if a == b then v else x) (sym (observe-read b m))

  find_write-record_read :
      (a b ver : ℕ) (stack : List (TransactionContext P))
      → find_write b (record_read a ver stack) ≡ find_write b stack
  unfolding find_write
  find_write-record_read a b ver [] = refl
  find_write-record_read a b ver (ctx ∷ stack) = refl

  committed-read : (a b : ℕ) (m : Memory P) → observe b (read_committed a m).1 ≡ observe b m
  unfolding observe read_committed
  committed-read a b m = ground (arith, find_write-record_read a b (m.cells a).version m.txn_stack)

  abbrev SameView : ℕ → Memory P → Memory P → Type 0
  SameView b m n = (n.cells b ≡ m.cells b) × (observe b n ≡ observe b m)

  read-SameView : (w : Value P) (b : ℕ) (m : Memory P) → SameView b m (read_shared w m).1
  unfolding read_shared
  read-SameView (plain p) b m = (refl, refl)
  read-SameView (shared a) b m =
      option_both (λ (r : Value P × Memory P). SameView b m r.1) (find_write a m.txn_stack)
        (unfold read_committed in refl, committed-read a b m) (λ v. (refl, refl))

  -- A read changes no cell, and no answer of a later read.
  pub read-keeps :
      (w : Value P) (b : ℕ) (m : Memory P)
      → ((read_shared w m).1.cells b ≡ m.cells b)
        × ((read_shared (shared b) (read_shared w m).1).0 ≡ (read_shared (shared b) m).0)
  read-keeps w b m =
      let (cells, view) = read-SameView w b m in
      (cells, observe-read b (read_shared w m).1 ∙ view ∙ sym (observe-read b m))

  -- Inside a transaction a write changes no cell.
  pub cells-write_shared :
      (a b : ℕ) (v : Value P) (m : Memory P)
      → m.txn_stack ≢ []
      → (write_shared a v m).cells b ≡ m.cells b
  unfolding write_shared
  cells-write_shared a b v m h = go m.txn_stack refl
    where
      go :
          (s : List (TransactionContext P))
          → m.txn_stack ≡ s
          → (write_shared a v m).cells b ≡ m.cells b
      go [] e = absurd (h e)
      go (ctx ∷ s) e = rw (e, write_shared) refl
