-- ===== src/Scheduler/Tick.antt =====
-- src/runtime/scheduler.rs: `tick`, a function for each of its phases, and `run_until_complete`.
-- src/interpreter/mod.rs: the ticks of `drain_mailboxes_async`. A coroutine that itself drains the
-- mailboxes, and so runs a tick within the tick, is not modelled.
use y.Prelude.{
  ℕ, suc, ◌+◌, ◌-◌, ltb, if◌then◌else◌, Bool, true, false, not, ◌&&◌, ◌||◌, List, [], ◌∷◌, ◌++◌,
  Option, none, some, is_empty, length, ◌==◌,
}
use y.Prelude.Loop.{Round, again, finish, loop}
use y.Scheduler.{
  TaskState, pending, ready, consumed, Shared, Registration, Io, CoroutineResult, yield, return,
  System, Parked, TimerParked, Scheduler, contains, register, deregister_stream, find_io_token,
  push_timer, has_pending_timers,
}

-- A deadline hint of the task that is awaited.
abbrev pub deadline_of : {F V : Type 0} → TaskState F V → Option ℕ
deadline_of (pending f d) = d
deadline_of _ = none

abbrev pub register_all : List Registration → Io → Io
register_all [] io = io
register_all (r ∷ rs) io = let (token, io') = register r io in register_all rs io'

module _ {C : Type 0} where
  abbrev pub awaits_io : Parked C → Bool
  awaits_io p = elim p.io_token [ none ↦ false | some k ↦ true ]

  -- `self.parked.iter().any(|p| p.io_token.is_some())`, and the same with `is_none`.
  abbrev pub has_io_parked : List (Parked C) → Bool
  has_io_parked [] = false
  has_io_parked (p ∷ ps) = awaits_io p || has_io_parked ps

  abbrev pub has_unkeyed_parked : List (Parked C) → Bool
  has_unkeyed_parked [] = false
  has_unkeyed_parked (p ∷ ps) = not (awaits_io p) || has_unkeyed_parked ps

  abbrev pub next_deadline : List (TimerParked C) → Option ℕ
  next_deadline [] = none
  next_deadline (t ∷ ts) = some t.deadline

  -- In milliseconds; `none` waits for an event.
  unfoldable pub timeout_of : ℕ → List (Parked C) → List (TimerParked C) → Option ℕ
  timeout_of now parked timers = elim (next_deadline timers) [
    | some dl ↦ if ltb now dl then some (dl - now) else some 0
    | none ↦
        if is_empty parked then none else if has_unkeyed_parked parked then some 1 else some 100
  ]

  abbrev pub should_poll : List ℕ → Parked C → Bool
  should_poll tokens p = elim p.io_token [ none ↦ true | some k ↦ contains tokens k ]

-- The states of the loops of a tick.
pub record Pass (C V F W : Type 0) : Type 0 where
  pub resumable : List (C × Option V)
  pub still_parked : List (Parked C)
  pub completed_tokens : List ℕ
  pub shared : Shared F V W

pub record TimerPass (C V F W : Type 0) : Type 0 where
  pub resumable : List (C × Option V)
  pub timers : List (TimerParked C)
  pub shared : Shared F V W

abbrev pub push_token : Option ℕ → List ℕ → List ℕ
push_token none tokens = tokens
push_token (some k) tokens = tokens ++ k ∷ []

abbrev pub set_task : {F V W : Type 0} → ℕ → TaskState F V → Shared F V W → Shared F V W
set_task task state m = record m { tasks = λ t. if t == task then state else m.tasks t }

module _ {C V R F W : Type 0} (sys : System C V R F W) where
  -- Where a coroutine goes that awaits `task`.
  unfoldable pub park : ℕ → C → TaskState F V → Scheduler C V R → Scheduler C V R
  park task coro state s = elim (deadline_of state) [
    | some d ↦ record s {
      timer_parked =
          push_timer (record { deadline = d; coroutine = coro; task = task }) s.timer_parked;
    }
    | none ↦ record s {
      parked =
          s.parked
          ++ record { coroutine = coro; task = task; io_token = find_io_token task s.io } ∷ [];
    }
  ]

  unfoldable pub settle : CoroutineResult C R → Shared F V W → Scheduler C V R → Scheduler C V R
  settle (yield task coro) m s = park task coro (m.tasks task) s
  settle (return r) m s = record s { results = s.results ++ r ∷ [] }

  -- 1. Run all ready coroutines: the list is that of the ready ones.
  unfoldable pub run_ready :
      List (C × Option V) → Scheduler C V R → Shared F V W → Scheduler C V R × Shared F V W
  run_ready [] s m = (record s { ready = [] }, m)
  run_ready ((coro, input) ∷ rest) s m =
      let after = sys.resume coro input s.io m in
      run_ready rest
        (settle after.result after.shared
          (record s { io = register_all after.registrations s.io; ready = rest }))
        after.shared

  -- `ready_value`: what a task has for its coroutine.
  unfoldable pub poll_state : TaskState F V → Shared F V W → Option V × Shared F V W
  poll_state (ready v) m = (some v, m)
  poll_state consumed m = (some sys.nil, m)
  poll_state (pending f d) m = sys.poll_fn f m

  abbrev pub keep_parked : Parked C → Pass C V F W → Pass C V F W
  keep_parked p a = record a { still_parked = a.still_parked ++ p ∷ [] }

  abbrev pub polled : Parked C → Option V → Pass C V F W → Pass C V F W
  polled p none a = keep_parked p a
  polled p (some v) a = record a {
    resumable = (p.coroutine, some v) ∷ a.resumable;
    completed_tokens = push_token p.io_token a.completed_tokens;
    shared = set_task p.task consumed a.shared;
  }

  abbrev pub answered : Parked C → Option V × Shared F V W → Pass C V F W → Pass C V F W
  answered p (value, m) a = polled p value (record a { shared = m })

  unfoldable pub poll_one : List ℕ → Parked C → Pass C V F W → Pass C V F W
  poll_one tokens p a =
      if should_poll tokens p
      then answered p (poll_state (a.shared.tasks p.task) a.shared) a
      else keep_parked p a

  -- 3a. Poll the tasks with an event, and those without a token.
  unfoldable pub poll_parked : List ℕ → List (Parked C) → Pass C V F W → Pass C V F W
  poll_parked tokens [] a = a
  poll_parked tokens (p ∷ ps) a = poll_parked tokens ps (poll_one tokens p a)

  abbrev pub timer_polled :
      ℕ → TimerParked C → List (TimerParked C) → Option V → TimerPass C V F W → TimerPass C V F W
  timer_polled now t rest none a = record a {
    timers = push_timer (record t { deadline = now + 1 }) rest;
  }
  timer_polled now t rest (some v) a = record a {
    resumable = (t.coroutine, some v) ∷ a.resumable;
    timers = rest;
    shared = set_task t.task consumed a.shared;
  }

  abbrev pub timer_answered :
      ℕ
      → TimerParked C
      → List (TimerParked C)
      → Option V × Shared F V W
      → TimerPass C V F W
      → TimerPass C V F W
  timer_answered now t rest (value, m) a = timer_polled now t rest value (record a { shared = m })

  unfoldable pub timer_round :
      ℕ
      → List (TimerParked C)
      → TimerPass C V F W
      → Option (Round (TimerPass C V F W) (TimerPass C V F W))
  timer_round now [] a = some (finish a)
  timer_round now (t ∷ rest) a =
      if ltb now t.deadline
      then some (finish a)
      else some (again (timer_answered now t rest (poll_state (a.shared.tasks t.task) a.shared) a))

  -- 3b. Poll the timers whose deadline has elapsed, on fuel.
  unfoldable pub poll_timers : ℕ → TimerPass C V F W → Option (TimerPass C V F W)
  poll_timers now a =
      loop (λ (s : TimerPass C V F W). timer_round now s.timers s) (suc (length a.timers)) a

  abbrev pub deregister_all : List ℕ → Io → Io
  deregister_all [] io = io
  deregister_all (k ∷ ks) io = deregister_all ks (deregister_stream k io)

  -- 2. The wait for events; without anything parked there is no wait.
  unfoldable pub await_events : Scheduler C V R → W → List ℕ × W
  await_events s w =
      let (now, w') = sys.clock w in
      if has_io_parked s.parked || has_unkeyed_parked s.parked || has_pending_timers s
      then sys.wait (timeout_of now s.parked s.timer_parked) w'
      else ([], w')

  abbrev pub poll_all : List ℕ → Scheduler C V R → Shared F V W → Pass C V F W
  poll_all tokens s m =
      poll_parked tokens s.parked
        (record { resumable = s.ready; still_parked = []; completed_tokens = []; shared = m })

  -- 4. and the answer, from what the two passes leave.
  abbrev pub conclude :
      Scheduler C V R → Pass C V F W → TimerPass C V F W → Bool × Scheduler C V R × Shared F V W
  conclude s a t =
      let s' : Scheduler C V R = record s {
        io = deregister_all a.completed_tokens s.io;
        ready = t.resumable;
        parked = a.still_parked;
        timer_parked = t.timers;
      } in
      (is_empty s'.ready && is_empty s'.parked && is_empty s'.timer_parked, s', t.shared)

  -- The tick once the ready coroutines have run.
  unfoldable pub poll_phase :
      Scheduler C V R → Shared F V W → Option (Bool × Scheduler C V R × Shared F V W)
  poll_phase s m =
      let (tokens, w) = await_events s m.world in
      let a = poll_all tokens s (record m { world = w }) in
      let (now, w') = sys.clock a.shared.world in
      elim (poll_timers now (record {
        resumable = a.resumable;
        timers = s.timer_parked;
        shared = record a.shared { world = w' };
      })) [ none ↦ none | some t ↦ some (conclude s a t) ]

  unfoldable pub tick :
      Scheduler C V R → Shared F V W → Option (Bool × Scheduler C V R × Shared F V W)
  tick s m = let (s', m') = run_ready s.ready s m in poll_phase s' m'
