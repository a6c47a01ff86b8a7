-- ===== src/Registry.antt =====
-- src/runtime/registry.rs: process ids from a global counter, and the table of the threads' senders.
use y.Prelude.{
  ℕ, zero, suc, ◌+◌, ◌≤◌, ◌<◌, ◌^◌, ◌%◌, ◌≡◌, refl, Bool, true, false, ◌==◌, List, [], ◌∷◌, Option,
  none, some, length, arith,
}
use y.Prelude.Maps.{Map, lookup, insert, remove}
pub mod Pids
pub mod Examples

-- The two globals; `S` is the type of senders.
pub record Registry (S : Type 0) : Type 0 where
  pub pid_counter : ℕ
  pub senders : Map S

module _ {S : Type 0} where
  unfoldable pub new : Registry S
  new = record { pid_counter = 1; senders = [] }

  -- `fetch_add` on a u64.
  unfoldable pub allocate_pid : Registry S → ℕ × Registry S
  allocate_pid g =
      (g.pid_counter, record { pid_counter = (g.pid_counter + 1) % 2 ^ 64; senders = g.senders })

  unfoldable pub register : ℕ → S → Registry S → Registry S
  register pid sender g = record {
    pid_counter = g.pid_counter;
    senders = insert pid sender g.senders;
  }

  unfoldable pub unregister : ℕ → Registry S → Registry S
  unregister pid g = record { pid_counter = g.pid_counter; senders = remove pid g.senders }

  unfoldable pub get_sender : ℕ → Registry S → Option S
  get_sender pid g = lookup pid g.senders

  unfoldable pub len : Registry S → ℕ
  len g = length g.senders

  unfoldable pub is_empty : Registry S → Bool
  is_empty g = len g == 0
