-- ===== src/Scheduler.antt =====
-- src/runtime/scheduler.rs: the state of the scheduler and its operations but for `tick`, which is
-- in Scheduler/Tick. Coroutines, the values and errors of the program, the poll functions of tasks
-- and the operating system are parameters: `System` says what the scheduler asks of them. A task
-- is known by its address, a deadline is a number of milliseconds. The vector of ready coroutines
-- has its top first; the binary heap of timers is a list with the earliest deadline first.
pub mod Tick
pub mod Moves
pub mod Conserved
pub mod Registered
pub mod Woken
pub mod Drain
pub mod Examples
use y.Prelude.{
  ℕ, ◌+◌, ◌≡◌, leb, if◌then◌else◌, Bool, true, false, not, ◌&&◌, ◌||◌, List, [], ◌∷◌, Option, none,
  some, is_empty, length, ◌==◌,
}
use y.Prelude.Maps.{Map, lookup, insert, remove}

-- `TaskState`: what a poll function is, is left open.
pub data TaskState (F V : Type 0) : Type 0 where
  pending : F → Option ℕ → TaskState F V
  ready : V → TaskState F V
  consumed : TaskState F V

-- What the coroutines and the poll functions of tasks read and change.
pub record Shared (F V W : Type 0) : Type 0 where
  pub tasks : ℕ → TaskState F V
  pub world : W

-- A call of `register_readable` or `register_listener_readable`: the task, and how the clone of the
-- socket and its registration with the poll end.
pub record Registration : Type 0 where
  pub task : ℕ
  pub cloned : Bool
  pub registered : Bool

-- `io_entries` and `task_ptr_to_token` with the next token; the entry keeps the task.
pub record Io : Type 0 where
  pub next_token : ℕ
  pub io_entries : Map ℕ
  pub task_ptr_to_token : Map ℕ

-- How a coroutine leaves `resume`: it yields `AwaitTask` and can be resumed, or it returns.
pub data CoroutineResult (C R : Type 0) : Type 0 where
  yield : ℕ → C → CoroutineResult C R
  return : R → CoroutineResult C R

pub record Resumed (C V R F W : Type 0) : Type 0 where
  pub registrations : List Registration
  pub shared : Shared F V W
  pub result : CoroutineResult C R

-- What the scheduler asks of the coroutines, of poll functions (`none` is `TaskPoll::Pending`), of the
-- clock, and of mio's poll, which answers the tokens that have events.
pub record System (C V R F W : Type 0) : Type 0 where
  pub resume : C → Option V → Io → Shared F V W → Resumed C V R F W
  pub poll_fn : F → Shared F V W → Option V × Shared F V W
  pub clock : W → ℕ × W
  pub wait : Option ℕ → W → List ℕ × W
  pub nil : V

pub record Parked (C : Type 0) : Type 0 where
  pub coroutine : C
  pub task : ℕ
  pub io_token : Option ℕ

pub record TimerParked (C : Type 0) : Type 0 where
  pub deadline : ℕ
  pub coroutine : C
  pub task : ℕ

pub record Scheduler (C V R : Type 0) : Type 0 where
  pub io : Io
  pub ready : List (C × Option V)
  pub parked : List (Parked C)
  pub timer_parked : List (TimerParked C)
  pub results : List R

abbrev pub contains : List ℕ → ℕ → Bool
contains [] k = false
contains (j ∷ js) k = (j == k) || contains js k

-- `register_stream_readable` and `register_listener_readable`.
unfoldable pub register : Registration → Io → Option ℕ × Io
register r io =
    let token = io.next_token in
    if not r.cloned
    then (none, io)
    else if not r.registered
    then (none, record io { next_token = token + 1 })
    else (
      some token,
      record {
        next_token = token + 1;
        io_entries = insert token r.task io.io_entries;
        task_ptr_to_token = insert r.task token io.task_ptr_to_token;
      },
    )

unfoldable pub deregister_stream : ℕ → Io → Io
deregister_stream token io = elim (lookup token io.io_entries) [
  | none ↦ io
  | some task ↦ record io {
    io_entries = remove token io.io_entries;
    task_ptr_to_token = remove task io.task_ptr_to_token;
  }
]

unfoldable pub find_io_token : ℕ → Io → Option ℕ
find_io_token task io = lookup task io.task_ptr_to_token

-- The push onto the binary heap of `TimerParked`, whose order is that of the deadlines reversed.
unfoldable pub push_timer :
    {C : Type 0} → TimerParked C → List (TimerParked C) → List (TimerParked C)
push_timer t [] = t ∷ []
push_timer t (u ∷ us) =
    let rest = push_timer t us in if leb t.deadline u.deadline then t ∷ u ∷ us else u ∷ rest

module _ {C V R : Type 0} where
  abbrev pub new : Scheduler C V R
  new = record {
    io = record { next_token = 1; io_entries = []; task_ptr_to_token = [] };
    ready = [];
    parked = [];
    timer_parked = [];
    results = [];
  }

  unfoldable pub spawn_handler : C → Scheduler C V R → Scheduler C V R
  spawn_handler coro s = record s { ready = (coro, none) ∷ s.ready }

  unfoldable pub has_work : Scheduler C V R → Bool
  has_work s = not (is_empty s.ready) || not (is_empty s.parked) || not (is_empty s.timer_parked)

  unfoldable pub has_ready : Scheduler C V R → Bool
  has_ready s = not (is_empty s.ready)

  unfoldable pub has_pending_timers : Scheduler C V R → Bool
  has_pending_timers s = not (is_empty s.timer_parked)

  unfoldable pub parked_count : Scheduler C V R → ℕ
  parked_count s = length s.parked + length s.timer_parked

  unfoldable pub take_results : Scheduler C V R → List R × Scheduler C V R
  take_results s = (s.results, record s { results = [] })
