-- ===== src/Scheduler/Woken.antt =====
-- src/runtime/scheduler.rs: a coroutine whose task has its value is resumed.
use y.Prelude.{
  ℕ, ◌≡◌, refl, ap, sym, subst, Bool, true, List, [], ◌∷◌, ◌++◌, Option, none, some, ◌⊎◌, inl, inr,
  arith, if_both, ◌==◌, ◌∙◌,
}
use y.Prelude.Cases.{option_both}
use y.Scheduler.{
  TaskState, ready, consumed, pending, Shared, System, CoroutineResult, yield, return, Parked,
  Scheduler, contains,
}
use y.Scheduler.Tick.{
  Pass, should_poll, poll_state, answered, polled, poll_one, poll_parked, settle, park, deadline_of,
  run_ready, await_events, register_all, tick,
}
use y.Scheduler.Moves.{IsSorted, Kept}
use y.Scheduler.Conserved.{tick_rule, first_pass, ran}

-- The value is there, or has been taken by another coroutine.
abbrev pub IsSettled : {F V : Type 0} → TaskState F V → Type 0
IsSettled (pending f d) = ⊥
IsSettled (ready v) = Unit
IsSettled consumed = Unit

abbrev pub In : {A : Type 0} → A → List A → Type 0
In x [] = ⊥
In x (y ∷ ys) = (y ≡ x) ⊎ In x ys

In-append : {A : Type 0} (x : A) (xs ys : List A) → In x xs → In x (xs ++ ys)
In-append x [] ys h = absurd h
In-append x (y ∷ xs) ys (inl e) = inl e
In-append x (y ∷ xs) ys (inr h) = inr (In-append x xs ys h)

-- The coroutine is among those to be resumed, with a value.
abbrev pub Woken : {C V : Type 0} → C → List (C × Option V) → Type 0
Woken coro [] = ⊥
Woken {V = V} coro ((c, input) ∷ rs) = ((c ≡ coro) × ((v : V) × (input ≡ some v))) ⊎ Woken coro rs

Woken-append :
    {C V : Type 0} (coro : C) (front rs : List (C × Option V))
    → Woken coro rs
    → Woken coro (front ++ rs)
Woken-append coro [] rs h = h
Woken-append coro (x ∷ front) rs h = inr (Woken-append coro front rs h)

contains-In : (k : ℕ) (tokens : List ℕ) → In k tokens → contains tokens k ≡ true
contains-In k [] i = absurd i
contains-In k (j ∷ js) (inl e) = ground (arith, e)
contains-In k (j ∷ js) (inr i) = ground (arith, contains-In k js i)

module _ {C V R F W : Type 0} (sys : System C V R F W) where
  -- Neither a coroutine nor a poll function takes back what the task has.
  abbrev pub Steady : ℕ → Type 0
  Steady task =
      ((f : F) (m : Shared F V W)
        → IsSettled (m.tasks task)
        → IsSettled ((sys.poll_fn f m).1.tasks task))
      × ((c : C) (input : Option V) (io : y.Scheduler.Io) (m : Shared F V W)
          → IsSettled (m.tasks task)
          → IsSettled ((sys.resume c input io m).shared.tasks task))

  answered-Woken :
      (p : Parked C) (state : TaskState F V) (m : Shared F V W) (a : Pass C V F W)
      → IsSettled state
      → Woken p.coroutine (answered sys p (poll_state sys state m) a).resumable
  unfolding poll_state
  answered-Woken p (pending f d) m a h = absurd h
  answered-Woken p (ready v) m a h = inl (refl, (v, refl))
  answered-Woken p consumed m a h = inl (refl, (sys.nil, refl))

  poll_one-Woken :
      (tokens : List ℕ) (p : Parked C) (a : Pass C V F W)
      → should_poll tokens p ≡ true
      → IsSettled (a.shared.tasks p.task)
      → Woken p.coroutine (poll_one sys tokens p a).resumable
  unfolding poll_one
  poll_one-Woken tokens p a polls h =
      rw polls (answered-Woken p (a.shared.tasks p.task) a.shared a h)

  polled-grows :
      (coro : C) (p : Parked C) (o : Option V) (a : Pass C V F W)
      → Woken coro a.resumable
      → Woken coro (polled sys p o a).resumable
  polled-grows coro p none a h = h
  polled-grows coro p (some v) a h = inr h

  poll_one-grows :
      (coro : C) (tokens : List ℕ) (p : Parked C) (a : Pass C V F W)
      → Woken coro a.resumable
      → Woken coro (poll_one sys tokens p a).resumable
  unfolding poll_one
  poll_one-grows coro tokens p a h =
      if_both (λ (x : Pass C V F W). Woken coro x.resumable) (should_poll tokens p)
        (let answer = poll_state sys (a.shared.tasks p.task) a.shared in
          polled-grows coro p answer.0 (record a { shared = answer.1 }) h)
        h

  poll_parked-grows :
      (coro : C) (tokens : List ℕ) (ps : List (Parked C)) (a : Pass C V F W)
      → Woken coro a.resumable
      → Woken coro (poll_parked sys tokens ps a).resumable
  unfolding poll_parked
  poll_parked-grows coro tokens [] a h = h
  poll_parked-grows coro tokens (p ∷ ps) a h =
      poll_parked-grows coro tokens ps (poll_one sys tokens p a) (poll_one-grows coro tokens p a h)

  polled-IsSettled :
      (task : ℕ) (p : Parked C) (o : Option V) (a : Pass C V F W)
      → IsSettled (a.shared.tasks task)
      → IsSettled ((polled sys p o a).shared.tasks task)
  polled-IsSettled task p none a h = h
  polled-IsSettled task p (some v) a h = if_both IsSettled (task == p.task) tt h

  poll_state-IsSettled :
      (task : ℕ) (state : TaskState F V) (m : Shared F V W)
      → Steady task
      → IsSettled (m.tasks task)
      → IsSettled ((poll_state sys state m).1.tasks task)
  unfolding poll_state
  poll_state-IsSettled task (pending f d) m steady h = steady.0 f m h
  poll_state-IsSettled task (ready v) m steady h = h
  poll_state-IsSettled task consumed m steady h = h

  poll_one-IsSettled :
      (task : ℕ) (tokens : List ℕ) (p : Parked C) (a : Pass C V F W)
      → Steady task
      → IsSettled (a.shared.tasks task)
      → IsSettled ((poll_one sys tokens p a).shared.tasks task)
  unfolding poll_one
  poll_one-IsSettled task tokens p a steady h =
      if_both (λ (x : Pass C V F W). IsSettled (x.shared.tasks task)) (should_poll tokens p)
        (let answer = poll_state sys (a.shared.tasks p.task) a.shared in
          polled-IsSettled task p answer.0 (record a { shared = answer.1 })
            (poll_state-IsSettled task (a.shared.tasks p.task) a.shared steady h))
        h

  poll_parked-Woken :
      (tokens : List ℕ) (p : Parked C) (ps : List (Parked C)) (a : Pass C V F W)
      → Steady p.task
      → should_poll tokens p ≡ true
      → In p ps
      → IsSettled (a.shared.tasks p.task)
      → Woken p.coroutine (poll_parked sys tokens ps a).resumable
  unfolding poll_parked
  poll_parked-Woken tokens p [] a steady polls i h = absurd i
  poll_parked-Woken tokens p (q ∷ ps) a steady polls (inl e) h =
      poll_parked-grows p.coroutine tokens ps (poll_one sys tokens q a) (
        subst (λ (x : Parked C). Woken p.coroutine (poll_one sys tokens x a).resumable) (sym e)
          (poll_one-Woken tokens p a polls h))
  poll_parked-Woken tokens p (q ∷ ps) a steady polls (inr i) h =
      poll_parked-Woken tokens p ps (poll_one sys tokens q a) steady polls i
        (poll_one-IsSettled p.task tokens q a steady h)

  settle-In :
      (p : Parked C) (r : CoroutineResult C R) (m : Shared F V W) (s : Scheduler C V R)
      → In p s.parked
      → In p (settle sys r m s).parked
  unfolding settle park
  settle-In p (yield task coro) m s i =
      option_both (λ (x : Scheduler C V R). In p x.parked) (deadline_of (m.tasks task))
        (In-append p s.parked _ i) (λ d. i)
  settle-In p (return r) m s i = i

  run_ready-keeps :
      (p : Parked C) (todo : List (C × Option V)) (s : Scheduler C V R) (m : Shared F V W)
      → Steady p.task
      → In p s.parked
      → IsSettled (m.tasks p.task)
      → In p (run_ready sys todo s m).0.parked × IsSettled ((run_ready sys todo s m).1.tasks p.task)
  unfolding run_ready
  run_ready-keeps p [] s m steady i h = (i, h)
  run_ready-keeps p ((coro, input) ∷ rest) s m steady i h =
      let after = sys.resume coro input s.io m in
      let s' : Scheduler C V R = record s {
        io = register_all after.registrations s.io;
        ready = rest;
      } in
      run_ready-keeps p rest (settle sys after.result after.shared s') after.shared steady
        (settle-In p after.result after.shared s' i) (steady.1 coro input s.io m h)

  -- A coroutine whose token is among those reported, or that has none.
  abbrev pub IsAwaited : List ℕ → Parked C → Type 0
  IsAwaited tokens p = (p.io_token ≡ none) ⊎ ((k : ℕ) × (p.io_token ≡ some k) × In k tokens)

  IsAwaited-should_poll :
      (tokens : List ℕ) (p : Parked C) → IsAwaited tokens p → should_poll tokens p ≡ true
  IsAwaited-should_poll tokens p (inl e) =
      ap (λ (o : Option ℕ). elim o [ none ↦ true | some k ↦ contains tokens k ]) e
  IsAwaited-should_poll tokens p (inr (k, e, i)) =
      ap (λ (o : Option ℕ). elim o [ none ↦ true | some k ↦ contains tokens k ]) e
      ∙ contains-In k tokens i

  -- The tokens that the wait of the tick reports.
  abbrev pub reported : Scheduler C V R → Shared F V W → List ℕ
  reported s m = let (s', m') = ran sys s m in (await_events sys s' m'.world).0

  -- When the timers are in order, the task of a parked coroutine has its value,
  -- which no coroutine or poll function takes back, and its token is among those that the wait
  -- reports, or it has none, then the tick returns and the coroutine is among those to be
  -- resumed, with a value.
  pub tick-wakes :
      (s : Scheduler C V R) (m : Shared F V W) (p : Parked C)
      → IsSorted s.timer_parked
      → In p s.parked
      → IsSettled (m.tasks p.task)
      → Steady p.task
      → IsAwaited (reported s m) p
      → (t : Bool × Scheduler C V R × Shared F V W) × (tick sys s m ≡ some t)
        × Woken p.coroutine t.1.ready
  tick-wakes s m p sorted i h steady awaited =
      let polls = IsAwaited-should_poll (reported s m) p awaited in
      let (s', m') = ran sys s m in
      let kept = run_ready-keeps p s.ready s m steady i h in
      tick_rule sys (λ t. Woken p.coroutine t.1.ready) s m sorted
        (λ t d.
          let front : Kept sys (first_pass sys s' m').resumable t.resumable = d.3 in
          subst (Woken p.coroutine) (sym front.1) (
            Woken-append p.coroutine front.0 _
              (poll_parked-Woken (reported s m) p s'.parked _ steady polls kept.0 kept.1)))
