-- ===== src/Scheduler/Moves.antt =====
-- src/runtime/scheduler.rs: each loop of a tick moves coroutines and loses none.
use y.Prelude.{
  ℕ, suc, ◌+◌, ◌≡◌, refl, ltb, leb, List, [], ◌∷◌, ◌++◌, Option, none, some, length, length-append,
  arith, if_cases, if_both, All, All-mono, ◌∙◌, sym, ap, subst, ltb→lt, if◌then◌else◌, ◌<◌, ◌≤◌,
}
use y.Prelude.Cases.{option_both}
use y.Prelude.Loop.{After, Returns, loop_rule}
use y.Scheduler.{
  TaskState, Shared, System, CoroutineResult, yield, return, Parked, TimerParked, Scheduler,
  push_timer,
}
use y.Scheduler.Tick.{
  Pass, TimerPass, park, settle, run_ready, poll_one, poll_parked, timer_round, poll_timers,
  register_all, deadline_of, timer_answered, poll_state,
}

module _ {C : Type 0} where
  pub length-push_timer :
      (t : TimerParked C) (ts : List (TimerParked C)) → length (push_timer t ts) ≡ suc (length ts)
  unfolding push_timer
  length-push_timer t [] = refl
  length-push_timer t (u ∷ us) = ground (arith, length-push_timer t us)

  -- The deadlines ascend.
  abbrev pub IsSorted : List (TimerParked C) → Type 0
  IsSorted [] = Unit
  IsSorted (t ∷ ts) = All (λ (u : TimerParked C). t.deadline ≤ u.deadline) ts × IsSorted ts

  All-push_timer :
      (P : TimerParked C → Type 0) (t : TimerParked C) (ts : List (TimerParked C))
      → P t
      → All P ts
      → All P (push_timer t ts)
  unfolding push_timer
  All-push_timer P t [] h hs = (h, tt)
  All-push_timer P t (u ∷ us) h hs =
      if_both (All P) (leb t.deadline u.deadline) (h, hs) (hs.0, All-push_timer P t us h hs.1)

  All-below :
      (d e : ℕ) (ts : List (TimerParked C))
      → d ≤ e
      → All (λ (u : TimerParked C). e ≤ u.deadline) ts
      → All (λ (u : TimerParked C). d ≤ u.deadline) ts
  All-below d e [] h hs = tt
  All-below d e (t ∷ ts) h hs = (omega (arith, hs.0), All-below d e ts h hs.1)

  pub push_timer-IsSorted :
      (t : TimerParked C) (ts : List (TimerParked C)) → IsSorted ts → IsSorted (push_timer t ts)
  unfolding push_timer
  push_timer-IsSorted t [] h = (tt, tt)
  push_timer-IsSorted t (u ∷ us) h =
      if_cases IsSorted (leb t.deadline u.deadline)
        (λ e.
          let le : t.deadline ≤ u.deadline = ground arith in
          ((le, All-below t.deadline u.deadline us le h.0), h))
        (λ e. (
          All-push_timer (λ v. u.deadline ≤ v.deadline) t us (ground arith) h.0,
          push_timer-IsSorted t us h.1,
        ))

  -- How many deadlines have elapsed.
  abbrev pub due : ℕ → List (TimerParked C) → ℕ
  due now [] = 0
  due now (t ∷ ts) = (if ltb now t.deadline then 0 else 1) + due now ts

  pub due-le : (now : ℕ) (ts : List (TimerParked C)) → due now ts ≤ length ts
  due-le now [] = omega arith
  due-le now (t ∷ ts) = ground (arith, due-le now ts)

  pub due-push_timer :
      (now : ℕ) (t : TimerParked C) (ts : List (TimerParked C))
      → due now (push_timer t ts) ≡ (if ltb now t.deadline then 0 else 1) + due now ts
  unfolding push_timer
  due-push_timer now t [] = refl
  due-push_timer now t (u ∷ us) = ground (arith, due-push_timer now t us)

-- The coroutines that a scheduler holds, and those that have returned.
abbrev pub held : {C V R : Type 0} → Scheduler C V R → ℕ
held s = length s.ready + (length s.parked + length s.timer_parked) + length s.results

module _ {C V R F W : Type 0} (sys : System C V R F W) where
  park-held :
      (task : ℕ) (coro : C) (state : TaskState F V) (s : Scheduler C V R)
      → (held (park sys task coro state s) ≡ suc (held s))
        × ((park sys task coro state s).ready ≡ s.ready)
  unfolding park
  park-held task coro state s =
      option_both (λ (x : Scheduler C V R). (held x ≡ suc (held s)) × (x.ready ≡ s.ready))
        (deadline_of state) (omega (arith, length-append s.parked (_ ∷ [])), refl)
        (λ d. (omega (arith, length-push_timer _ s.timer_parked), refl))

  settle-held :
      (r : CoroutineResult C R) (m : Shared F V W) (s : Scheduler C V R)
      → (held (settle sys r m s) ≡ suc (held s)) × ((settle sys r m s).ready ≡ s.ready)
  unfolding settle
  settle-held (yield task coro) m s = park-held task coro (m.tasks task) s
  settle-held (return r) m s = (omega (arith, length-append s.results (r ∷ [])), refl)

  pub run_ready-held :
      (todo : List (C × Option V)) (s : Scheduler C V R) (m : Shared F V W)
      → s.ready ≡ todo
      → (held (run_ready sys todo s m).0 ≡ held s) × ((run_ready sys todo s m).0.ready ≡ [])
  unfolding run_ready
  run_ready-held [] s m h = (rw h refl, refl)
  run_ready-held ((coro, input) ∷ rest) s m h =
      let after = sys.resume coro input s.io m in
      let s' : Scheduler C V R = record s {
        io = register_all after.registrations s.io;
        ready = rest;
      } in
      let one = settle-held after.result after.shared s' in
      let more = run_ready-held rest (settle sys after.result after.shared s') after.shared one.1 in
      let less : held s ≡ suc (held s') = omega (arith, ap length h) in
      (more.0 ∙ one.0 ∙ sym less, more.1)

  abbrev pub pass_count : Pass C V F W → ℕ
  pass_count a = length a.resumable + length a.still_parked

  poll_one-count :
      (tokens : List ℕ) (p : Parked C) (a : Pass C V F W)
      → pass_count (poll_one sys tokens p a) ≡ suc (pass_count a)
  unfolding poll_one
  poll_one-count tokens p a = ground (arith, length-append a.still_parked (p ∷ []))

  pub poll_parked-count :
      (tokens : List ℕ) (ps : List (Parked C)) (a : Pass C V F W)
      → pass_count (poll_parked sys tokens ps a) ≡ pass_count a + length ps
  unfolding poll_parked
  poll_parked-count tokens [] a = omega arith
  poll_parked-count tokens (p ∷ ps) a =
      omega
        (arith, poll_one-count tokens p a, poll_parked-count tokens ps (poll_one sys tokens p a))

  abbrev pub timer_count : TimerPass C V F W → ℕ
  timer_count a = length a.resumable + length a.timers

  abbrev pub Elapsed : ℕ → List (TimerParked C) → Type 0
  Elapsed now ts = All (λ (u : TimerParked C). now < u.deadline) ts

  Sorted-Elapsed :
      (now : ℕ) (t : TimerParked C) (ts : List (TimerParked C))
      → now < t.deadline
      → IsSorted (t ∷ ts)
      → Elapsed now (t ∷ ts)
  Sorted-Elapsed now t ts h s = (h, All-mono _ _ ts (λ u le. omega arith) s.0)

  -- The coroutines of `base` are still among those that can be resumed.
  abbrev pub Kept : List (C × Option V) → List (C × Option V) → Type 0
  Kept base rs = (front : List (C × Option V)) × (rs ≡ front ++ base)

  abbrev Going : ℕ → List (C × Option V) → TimerPass C V F W → Type 0
  Going n base a = (timer_count a ≡ n) × IsSorted a.timers × Kept base a.resumable

  -- What the loop over the timers leaves.
  abbrev pub Drained : ℕ → ℕ → List (C × Option V) → TimerPass C V F W → Type 0
  Drained now n base a =
      (timer_count a ≡ n) × IsSorted a.timers × Elapsed now a.timers × Kept base a.resumable

  timer_answered-Going :
      (now n : ℕ) (base : List (C × Option V)) (t : TimerParked C) (rest : List (TimerParked C))
      (o : Option V) (m : Shared F V W) (a : TimerPass C V F W)
      → timer_count a ≡ n
      → Kept base a.resumable
      → a.timers ≡ t ∷ rest
      → IsSorted rest
      → Going n base (timer_answered sys now t rest (o, m) a)
        × (due now (timer_answered sys now t rest (o, m) a).timers ≡ due now rest)
  timer_answered-Going now n base t rest none m a c kept e s =
      let later : TimerParked C = record t { deadline = now + 1 } in
      (
        (
          omega (arith, length-push_timer later rest, ap length e),
          push_timer-IsSorted later rest s,
          kept,
        ),
        ground (arith, due-push_timer now later rest),
      )
  timer_answered-Going now n base t rest (some v) m a c kept e s = (
    (
      omega (arith, ap length e),
      s,
      ((t.coroutine, some v) ∷ kept.0, ap (λ rs. (t.coroutine, some v) ∷ rs) kept.1),
    ),
    refl,
  )

  timer_round-Drained :
      (now n : ℕ) (base : List (C × Option V)) (ts : List (TimerParked C)) (a : TimerPass C V F W)
      → a.timers ≡ ts
      → Going n base a
      → Returns
          (After
            (Going n base)
            (Drained now n base)
            (λ (x : TimerPass C V F W). due now x.timers)
            (due now ts))
          (timer_round sys now ts a)
  unfolding timer_round
  timer_round-Drained now n base [] a e h = (h.0, h.1, subst (Elapsed now) (sym e) tt, h.2)
  timer_round-Drained now n base (t ∷ rest) a e h =
      if_cases
        (Returns (
          After (Going n base) (Drained now n base) (λ (x : TimerPass C V F W). due now x.timers)
            (due now (t ∷ rest))))
        (ltb now t.deadline)
        (λ later. (
          h.0,
          h.1,
          subst (Elapsed now) (sym e)
              (Sorted-Elapsed now t rest (ltb→lt now t.deadline later) sorted),
          h.2,
        ))
        (λ elapsed.
          let answer = poll_state sys (a.shared.tasks t.task) a.shared in
          let g = timer_answered-Going now n base t rest answer.0 answer.1 a h.0 h.2 e sorted.1 in
          (g.0, ground (arith, g.1)))
    where
      sorted : IsSorted (t ∷ rest)
      sorted = subst IsSorted e h.1

  -- The loop ends, keeps every coroutine, and leaves timers whose deadlines are all to come.
  pub poll_timers-Drained :
      (now : ℕ) (a : TimerPass C V F W)
      → IsSorted a.timers
      → Returns (Drained now (timer_count a) a.resumable) (poll_timers sys now a)
  unfolding poll_timers
  poll_timers-Drained now a s =
      loop_rule (Going (timer_count a) a.resumable) (Drained now (timer_count a) a.resumable)
        (λ (x : TimerPass C V F W). due now x.timers) _
        (λ x g. timer_round-Drained now (timer_count a) a.resumable x.timers x refl g)
        (suc (length a.timers)) a (omega (arith, due-le now a.timers)) (refl, s, ([], refl))
