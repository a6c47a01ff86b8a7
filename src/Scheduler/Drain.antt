-- ===== src/Scheduler/Drain.antt =====
-- src/interpreter/mod.rs: the ticks of `drain_mailboxes_async`, at most four, whose results it
-- collects.
use y.Prelude.{
  ℕ, zero, suc, ◌+◌, ◌≡◌, true, false, not, ◌&&◌, ◌||◌, List, [], ◌++◌, Option, none, some, length,
  length-append, arith,
}
use y.Prelude.Loop.{Returns, Returns-some}
use y.Prelude.Cases.{elim_both}
use y.Scheduler.{Shared, System, Scheduler, has_ready, has_pending_timers, take_results}
use y.Scheduler.Tick.{tick}
use y.Scheduler.Moves.{IsSorted, held}
use y.Scheduler.Conserved.{tick-Ticked}

abbrev pub ticks_per_yield : ℕ
ticks_per_yield = 4

-- `last_results`, and what the ticks leave.
pub record Drained (C V R F W : Type 0) : Type 0 where
  pub last_results : List R
  pub scheduler : Scheduler C V R
  pub shared : Shared F V W

module _ {C V R F W : Type 0} (sys : System C V R F W) where
  abbrev collect : List R → Scheduler C V R → Shared F V W → Drained C V R F W
  collect acc s m =
      let (results, s') = take_results s in
      record { last_results = acc ++ results; scheduler = s'; shared = m }

  -- The loop stops when nothing is left, or only what waits for input and output.
  unfoldable pub ticks : ℕ → Drained C V R F W → Option (Drained C V R F W)
  ticks zero d = some d
  ticks (suc n) d = elim (tick sys d.scheduler d.shared) [
    | none ↦ none
    | some (finished, s, m) ↦
        let after = collect d.last_results s m in
        elim (finished
          || (not (has_ready after.scheduler) && not (has_pending_timers after.scheduler))) [
            | true ↦ some after
            | false ↦ ticks n after
          ]
  ]

  unfoldable pub drain_ticks : Scheduler C V R → Shared F V W → Option (Drained C V R F W)
  drain_ticks s m = ticks ticks_per_yield (record { last_results = []; scheduler = s; shared = m })

  abbrev pub Collected : ℕ → Drained C V R F W → Type 0
  Collected n d = (length d.last_results + held d.scheduler ≡ n) × IsSorted d.scheduler.timer_parked

  ticks-Collected :
      (k n : ℕ) (d : Drained C V R F W) → Collected n d → Returns (Collected n) (ticks k d)
  unfolding ticks take_results
  ticks-Collected zero n d h = h
  ticks-Collected (suc k) n d h =
      let (t, e, done) = tick-Ticked sys d.scheduler d.shared h.1 in
      let after = collect d.last_results t.1 t.2 in
      let kept : Collected n after =
        (omega (arith, length-append d.last_results t.1.results, h.0, done.0), done.1) in
      rw (e, ticks)
        (elim_both (Returns (Collected n))
          (t.0 || (not (has_ready after.scheduler) && not (has_pending_timers after.scheduler)))
          kept (ticks-Collected k n after kept))

  -- With the timers in order the ticks of one drain return, and every coroutine is still held by
  -- the scheduler or has its result among those collected.
  pub drain_ticks-Collected :
      (s : Scheduler C V R) (m : Shared F V W)
      → IsSorted s.timer_parked
      → (d : Drained C V R F W) × (drain_ticks s m ≡ some d) × Collected (held s) d
  unfolding drain_ticks
  drain_ticks-Collected s m h =
      Returns-some (Collected (held s)) _
        (ticks-Collected ticks_per_yield (held s) _ (omega arith, h))
