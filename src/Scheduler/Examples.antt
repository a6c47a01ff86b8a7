-- ===== src/Scheduler/Examples.antt =====
-- Runs of the scheduler.
use y.Prelude.{
  ℕ, ◌+◌, ◌≡◌, ◌==◌, if◌then◌else◌, refl, arith, true, [], ◌∷◌, none, some, inl, inr, Bool,
}
use y.Prelude.Maps.{lookup}
use y.Scheduler.{
  pending, ready, Shared, System, yield, return, Parked, Scheduler, find_io_token, push_timer,
}
use y.Scheduler.Tick.{await_events, run_ready, settle, park, timeout_of, tick}
use y.Scheduler.Moves.{held}
use y.Scheduler.Conserved.{tick-Ticked, Ticked, second_reading, ran}
use y.Scheduler.Registered.{tick-Matched, Matched}
use y.Scheduler.Woken.{tick-wakes, reported, IsAwaited, Woken}
use y.Scheduler.Drain.{Drained, drain_ticks, drain_ticks-Collected, Collected}

-- A coroutine is the number of tasks that it still awaits, the next one of that number; a task that
-- is pending stays so; the clock counts its readings, and token 1 has an event.
abbrev sys : System ℕ ℕ ℕ ℕ ℕ
sys = record {
  resume = λ c input io m. record {
    registrations = record { task = 8; cloned = true; registered = true } ∷ [];
    shared = m;
    result = if c == 0 then return 9 else yield c 0;
  };
  poll_fn = λ f m. (none, m);
  clock = λ w. (w, w + 1);
  wait = λ t w. (1 ∷ [], w);
  nil = 0;
}

abbrev shared : Shared ℕ ℕ ℕ
shared = record { tasks = λ t. if t == 5 then ready 3 else pending 0 (some 20); world = 0 }

abbrev waiting : Parked ℕ
waiting = record { coroutine = 0; task = 5; io_token = some 1 }

-- One coroutine that returns, one that goes on to sleep until 20, and one whose task has its value.
abbrev busy : Scheduler ℕ ℕ ℕ
busy = record {
  io = record { next_token = 2; io_entries = (1, 5) ∷ []; task_ptr_to_token = (5, 1) ∷ [] };
  ready = (2, none) ∷ (0, none) ∷ [];
  parked = waiting ∷ [];
  timer_parked = [];
  results = [];
}

tick-Ticked_example :
    (t : Bool × Scheduler ℕ ℕ ℕ × Shared ℕ ℕ ℕ) × (tick sys busy shared ≡ some t)
    × Ticked sys (held busy) (second_reading sys (ran sys busy shared).0 (ran sys busy shared).1) t
tick-Ticked_example = tick-Ticked sys busy shared tt

one_entry : Matched busy.io
unfolding find_io_token lookup
one_entry = (λ task k e. ground arith, λ k task e. ground arith)

tick-Matched_example :
    (t : Bool × Scheduler ℕ ℕ ℕ × Shared ℕ ℕ ℕ) × (tick sys busy shared ≡ some t) × Matched t.1.io
tick-Matched_example = tick-Matched sys busy shared tt one_entry

awaited : IsAwaited sys (reported sys busy shared) waiting
unfolding await_events run_ready settle park push_timer timeout_of
awaited = inr (1, refl, inl refl)

tick-wakes_example :
    (t : Bool × Scheduler ℕ ℕ ℕ × Shared ℕ ℕ ℕ) × (tick sys busy shared ≡ some t)
    × Woken 0 t.1.ready
tick-wakes_example =
    tick-wakes sys busy shared waiting tt (inl refl) tt ((λ f m h. h), λ c input io m h. h) awaited

drain_ticks-Collected_example :
    (d : Drained ℕ ℕ ℕ ℕ ℕ) × (drain_ticks sys busy shared ≡ some d) × Collected sys (held busy) d
drain_ticks-Collected_example = drain_ticks-Collected sys busy shared tt
