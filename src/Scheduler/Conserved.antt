-- ===== src/Scheduler/Conserved.antt =====
-- src/runtime/scheduler.rs: a whole tick, its end and its answer.
use y.Prelude.{
  ℕ, ◌+◌, ◌≡◌, refl, Bool, not, List, [], ◌∷◌, Option, some, length, arith, ap, is_empty, ◌&&◌,
}
use y.Prelude.Cases.{option_both}
use y.Prelude.Loop.{Returns, Returns-bind, Returns-some}
use y.Scheduler.{Shared, System, CoroutineResult, yield, return, Scheduler, has_work}
use y.Scheduler.Tick.{
  park, settle, deadline_of, register_all, run_ready, await_events, poll_all, poll_phase, tick,
  conclude, Pass, TimerPass,
}
use y.Scheduler.Moves.{
  IsSorted, Elapsed, Drained, held, push_timer-IsSorted, run_ready-held, poll_parked-count,
  poll_timers-Drained,
}

module _ {C V R F W : Type 0} (sys : System C V R F W) where
  settle-IsSorted :
      (r : CoroutineResult C R) (m : Shared F V W) (s : Scheduler C V R)
      → IsSorted s.timer_parked
      → IsSorted (settle sys r m s).timer_parked
  unfolding settle park
  settle-IsSorted (yield task coro) m s h =
      option_both (λ (x : Scheduler C V R). IsSorted x.timer_parked) (deadline_of (m.tasks task)) h
        (λ d. push_timer-IsSorted _ s.timer_parked h)
  settle-IsSorted (return r) m s h = h

  run_ready-IsSorted :
      (todo : List (C × Option V)) (s : Scheduler C V R) (m : Shared F V W)
      → IsSorted s.timer_parked
      → IsSorted (run_ready sys todo s m).0.timer_parked
  unfolding run_ready
  run_ready-IsSorted [] s m h = h
  run_ready-IsSorted ((coro, input) ∷ rest) s m h =
      let after = sys.resume coro input s.io m in
      let s' : Scheduler C V R = record s {
        io = register_all after.registrations s.io;
        ready = rest;
      } in
      run_ready-IsSorted rest (settle sys after.result after.shared s') after.shared
        (settle-IsSorted after.result after.shared s' h)

  -- The pass over the parked coroutines, and the second reading of the clock, which follows it.
  abbrev pub first_pass : Scheduler C V R → Shared F V W → Pass C V F W
  first_pass s m =
      let (tokens, w) = await_events sys s m.world in poll_all sys tokens s (record m { world = w })

  abbrev pub second_reading : Scheduler C V R → Shared F V W → ℕ
  second_reading s m = (sys.clock (first_pass s m).shared.world).0

  -- A property of what a tick leaves, from what its two passes leave.
  poll_phase_rule :
      (Q : Bool × Scheduler C V R × Shared F V W → Type 0) (s : Scheduler C V R) (m : Shared F V W)
      → IsSorted s.timer_parked
      → ((t : TimerPass C V F W)
          → Drained sys
              (second_reading s m)
              (length (first_pass s m).resumable + length s.timer_parked)
              (first_pass s m).resumable
              t
          → Q (conclude sys s (first_pass s m) t))
      → Returns Q (poll_phase sys s m)
  unfolding poll_phase
  poll_phase_rule Q s m h k =
      Returns-bind Q _ (λ t. some (conclude sys s (first_pass s m) t))
        (poll_timers-Drained sys (second_reading s m) _ h) k

  abbrev pub ran : Scheduler C V R → Shared F V W → Scheduler C V R × Shared F V W
  ran s m = run_ready sys s.ready s m

  pub tick_rule :
      (Q : Bool × Scheduler C V R × Shared F V W → Type 0) (s : Scheduler C V R) (m : Shared F V W)
      → IsSorted s.timer_parked
      → ((t : TimerPass C V F W)
          → let (s', m') = ran s m in
            Drained sys
              (second_reading s' m')
              (length (first_pass s' m').resumable + length s'.timer_parked)
              (first_pass s' m').resumable
              t
            → Q (conclude sys s' (first_pass s' m') t))
      → (t : Bool × Scheduler C V R × Shared F V W) × (tick sys s m ≡ some t) × Q t
  unfolding tick
  tick_rule Q s m h k =
      Returns-some Q _
        (poll_phase_rule Q (ran s m).0 (ran s m).1 (run_ready-IsSorted s.ready s m h) k)

  -- What a tick leaves that had `n` coroutines and results, and read the clock as `now`.
  abbrev pub Ticked : ℕ → ℕ → Bool × Scheduler C V R × Shared F V W → Type 0
  Ticked n now (finished, s, m) =
      (held s ≡ n)
      × IsSorted s.timer_parked
      × Elapsed sys now s.timer_parked
      × (finished ≡ not (has_work s))

  no_work :
      (s : Scheduler C V R)
      → (is_empty s.ready && is_empty s.parked && is_empty s.timer_parked) ≡ not (has_work s)
  unfolding has_work
  no_work s = ground arith

  -- A tick returns. It keeps the number of coroutines, those that returned counted with their
  -- results, and the order of the timers, which was there before; every timer that it leaves has a
  -- deadline after the second reading of the clock; and it answers true just when no coroutine is left.
  pub tick-Ticked :
      (s : Scheduler C V R) (m : Shared F V W)
      → IsSorted s.timer_parked
      → (t : Bool × Scheduler C V R × Shared F V W) × (tick sys s m ≡ some t)
        × Ticked (held s) (second_reading (ran s m).0 (ran s m).1) t
  tick-Ticked s m h =
      let (s', m') = ran s m in
      let kept = run_ready-held sys s.ready s m refl in
      tick_rule (Ticked (held s) (second_reading s' m')) s m h (λ t d. (
        omega (
          arith,
          d.0,
          kept.0,
          ap length kept.1,
          poll_parked-count sys (await_events sys s' m'.world).0 s'.parked _,
        ),
        d.1,
        d.2,
        no_work (conclude sys s' (first_pass s' m') t).1,
      ))
