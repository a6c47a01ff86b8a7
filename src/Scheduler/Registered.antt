-- ===== src/Scheduler/Registered.antt =====
-- src/runtime/scheduler.rs: the two tables of registered sockets agree.
use y.Prelude.{
  ℕ, ◌≡◌, ◌<◌, refl, Bool, not, List, [], ◌∷◌, Option, some, arith, if_both, subst, sym,
}
use y.Prelude.Maps.{lookup, lookup-insert, lookup-remove}
use y.Prelude.Cases.{option_both, option_cases}
use y.Scheduler.{
  Shared, System, CoroutineResult, yield, return, Scheduler, Registration, Io, register,
  deregister_stream, find_io_token,
}
use y.Scheduler.Tick.{register_all, deregister_all, settle, park, deadline_of, run_ready, tick}
use y.Scheduler.Moves.{IsSorted}
use y.Scheduler.Conserved.{tick_rule, first_pass, ran}

-- A token found for a task is the entry of that task; and no entry's token is still to come.
abbrev pub Matched : Io → Type 0
Matched io =
    ((task k : ℕ) → find_io_token task io ≡ some k → lookup k io.io_entries ≡ some task)
    × ((k task : ℕ) → lookup k io.io_entries ≡ some task → k < io.next_token)

register-Matched : (r : Registration) (io : Io) → Matched io → Matched (register r io).1
unfolding register find_io_token
register-Matched r io h =
    if_both (λ (x : Option ℕ × Io). Matched x.1) (not r.cloned) h
      (if_both (λ (x : Option ℕ × Io). Matched x.1) (not r.registered)
        (h.0, λ k task e. omega (arith, h.1 k task e))
        (
          λ task k e. ground (
            arith,
            lookup-insert r.task task io.next_token io.task_ptr_to_token,
            lookup-insert io.next_token k r.task io.io_entries,
            h.0 task k,
            h.1 k task,
          ),
          λ k task e.
              ground (arith, lookup-insert io.next_token k r.task io.io_entries, h.1 k task),
        ))

deregister_stream-Matched :
    (token : ℕ) (io : Io) → Matched io → Matched (deregister_stream token io)
unfolding deregister_stream find_io_token
deregister_stream-Matched token io h =
    option_cases Matched (lookup token io.io_entries) h (λ t found. (
      λ task k e. ground (
        arith,
        found,
        lookup-remove t task io.task_ptr_to_token,
        lookup-remove token k io.io_entries,
        h.0 task k,
      ),
      λ k task e. ground (arith, lookup-remove token k io.io_entries, h.1 k task),
    ))

register_all-Matched :
    (rs : List Registration) (io : Io) → Matched io → Matched (register_all rs io)
register_all-Matched [] io h = h
register_all-Matched (r ∷ rs) io h =
    register_all-Matched rs (register r io).1 (register-Matched r io h)

module _ {C V R F W : Type 0} (sys : System C V R F W) where
  deregister_all-Matched : (ks : List ℕ) (io : Io) → Matched io → Matched (deregister_all sys ks io)
  deregister_all-Matched [] io h = h
  deregister_all-Matched (k ∷ ks) io h =
      deregister_all-Matched ks (deregister_stream k io) (deregister_stream-Matched k io h)

  settle-io :
      (r : CoroutineResult C R) (m : Shared F V W) (s : Scheduler C V R)
      → (settle sys r m s).io ≡ s.io
  unfolding settle park
  settle-io (yield task coro) m s =
      option_both (λ (x : Scheduler C V R). x.io ≡ s.io) (deadline_of (m.tasks task)) refl
        (λ d. refl)
  settle-io (return r) m s = refl

  run_ready-Matched :
      (todo : List (C × Option V)) (s : Scheduler C V R) (m : Shared F V W)
      → Matched s.io
      → Matched (run_ready sys todo s m).0.io
  unfolding run_ready
  run_ready-Matched [] s m h = h
  run_ready-Matched ((coro, input) ∷ rest) s m h =
      let after = sys.resume coro input s.io m in
      let s' : Scheduler C V R = record s {
        io = register_all after.registrations s.io;
        ready = rest;
      } in
      run_ready-Matched rest (settle sys after.result after.shared s') after.shared (
        subst Matched (sym (settle-io after.result after.shared s'))
          (register_all-Matched after.registrations s.io h))

  -- A tick, whatever its coroutines register, returns with tables that agree when they agreed
  -- before it and the timers were in order: the token found for a task is the entry of that very
  -- task, and every token is below the next one.
  pub tick-Matched :
      (s : Scheduler C V R) (m : Shared F V W)
      → IsSorted s.timer_parked
      → Matched s.io
      → (t : Bool × Scheduler C V R × Shared F V W) × (tick sys s m ≡ some t) × Matched t.1.io
  tick-Matched s m sorted h =
      tick_rule sys (λ t. Matched t.1.io) s m sorted
        (λ t d.
          deregister_all-Matched (first_pass sys (ran sys s m).0 (ran sys s m).1).completed_tokens _
            (run_ready-Matched s.ready s m h))
