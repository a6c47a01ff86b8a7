-- ===== src/Vm/Capture.antt =====
-- Closing upvalues keeps what they read.
use y.Prelude.{
  ℕ, ◌<◌, leb, ◌==◌, Bool, true, false, List, [], ◌∷◌, Option, none, some, length, take,
  get_elem?-take, get_elem?_total, All, All-mono, ◌≡◌, refl, sym, ◌∙◌, arith, if_cases, ==→≡,
  ==_refl,
}
use y.Prelude.Loop.{Returns, Returns-some, Returns-bind}
use y.Vm.Upvalue.{
  UpvalueState, open_at, closed, read, close_if_at_or_above, update, Closing, keep_if,
  close_upvalues_above, capture_local,
}

module _ {V : Type 0} where
  -- An open upvalue points into the stack.
  abbrev pub InStack : List V → UpvalueState V → Type 0
  InStack stack (open_at i) = i < length stack
  InStack stack (closed v) = Unit

  -- Closed, or open below the floor.
  abbrev pub IsBelow : ℕ → UpvalueState V → Type 0
  IsBelow floor (open_at i) = i < floor
  IsBelow floor (closed v) = Unit

  -- One upvalue is closed if it is at the floor or above, and reads what it read.
  pub record Shut (floor : ℕ) (stack : List V) (old : UpvalueState V) (r : UpvalueState V × Bool)
      : Type 0 where
    pub reads : read r.0 stack ≡ read old stack
    pub below : IsBelow floor r.0
    pub in_stack : InStack stack r.0
    pub kept : r.1 ≡ false → r.0 ≡ old

  close-Shut :
      (floor : ℕ) (stack : List V) (st : UpvalueState V)
      → InStack stack st
      → Returns (Shut floor stack st) (close_if_at_or_above st stack floor)
  unfolding close_if_at_or_above read
  close-Shut floor stack (closed v) h = record {
    reads = refl;
    below = tt;
    in_stack = tt;
    kept = λ _. refl;
  }
  close-Shut floor stack (open_at i) h =
      let (v, e) = get_elem?_total stack i h in
      if_cases (Returns (Shut floor stack (open_at i))) (leb floor i)
        (λ above.
          rw e (record { reads = sym e; below = tt; in_stack = tt; kept = λ f. ground arith }))
        (λ under. record { reads = refl; below = ground arith; in_stack = h; kept = λ _. refl })

  -- The upvalues `ws` are closed or open below the floor, and every upvalue reads what it read.
  pub record Closed (floor : ℕ) (stack : List V) (heap : ℕ → UpvalueState V) (ws : List ℕ)
      (c : Closing V) : Type 0 where
    pub reads : (w : ℕ) → read (c.heap w) stack ≡ read (heap w) stack
    pub stays : (w : ℕ) → IsBelow floor (heap w) → IsBelow floor (c.heap w)
    pub stays_in : (w : ℕ) → InStack stack (heap w) → InStack stack (c.heap w)
    pub below : All (λ w. IsBelow floor (c.heap w)) ws
    pub still : All (λ w. IsBelow floor (c.heap w) × InStack stack (c.heap w)) c.still_open

  module _ (floor : ℕ) (stack : List V) (heap : ℕ → UpvalueState V) (u : ℕ)
      (r : UpvalueState V × Bool) (h : Shut floor stack (heap u) r) where
    read-update : (w : ℕ) → read (update u r.0 heap w) stack ≡ read (heap w) stack
    unfolding update
    read-update w =
        if_cases (λ (st : UpvalueState V). read st stack ≡ read (heap w) stack) (u == w)
          (λ e. rw (← ==→≡ u w e) h.reads) (λ _. refl)

    InStack-update : (w : ℕ) → InStack stack (heap w) → InStack stack (update u r.0 heap w)
    unfolding update
    InStack-update w k = if_cases (InStack stack) (u == w) (λ _. h.in_stack) (λ _. k)

    below-update : (w : ℕ) → IsBelow floor (heap w) → IsBelow floor (update u r.0 heap w)
    unfolding update
    below-update w k = if_cases (IsBelow floor) (u == w) (λ _. h.below) (λ _. k)

    below_self : IsBelow floor (update u r.0 heap u)
    unfolding update
    below_self = rw (==_refl u) h.below

    InStack-self : InStack stack (update u r.0 heap u)
    unfolding update
    InStack-self = rw (==_refl u) h.in_stack

    keep-Closed :
        (us : List ℕ) (o : Option (Closing V))
        → Returns (Closed floor stack (update u r.0 heap) us) o
        → Returns (Closed floor stack heap (u ∷ us)) (keep_if r.1 u o)
    keep-Closed us none k = k
    keep-Closed us (some c) k = kept_either r.1
      where
        whole :
            (left : List ℕ)
            → All (λ w. IsBelow floor (c.heap w) × InStack stack (c.heap w)) left
            → Closed floor stack heap (u ∷ us) (record { heap = c.heap; still_open = left })
        whole left still = record {
          reads = λ w. k.reads w ∙ read-update w;
          stays = λ w b. k.stays w (below-update w b);
          stays_in = λ w b. k.stays_in w (InStack-update w b);
          below = (k.stays u below_self, k.below);
          still = still;
        }

        kept_either : (b : Bool) → Returns (Closed floor stack heap (u ∷ us)) (keep_if b u (some c))
        kept_either true = whole c.still_open k.still
        kept_either false =
            whole (u ∷ c.still_open) ((k.stays u below_self, k.stays_in u InStack-self), k.still)

  pub close_upvalues_above-Closed :
      (floor : ℕ) (stack : List V) (heap : ℕ → UpvalueState V) (ws : List ℕ)
      → All (λ w. InStack stack (heap w)) ws
      → Returns (Closed floor stack heap ws) (close_upvalues_above floor stack heap ws)
  unfolding close_upvalues_above
  close_upvalues_above-Closed floor stack heap [] h = record {
    reads = λ w. refl;
    stays = λ w b. b;
    stays_in = λ w b. b;
    below = tt;
    still = tt;
  }
  close_upvalues_above-Closed floor stack heap (u ∷ us) h =
      Returns-bind (Closed floor stack heap (u ∷ us)) (close_if_at_or_above (heap u) stack floor) _
        (close-Shut floor stack (heap u) h.0)
        (λ r shut. keep-Closed floor stack heap u r shut us _ (
          close_upvalues_above-Closed floor stack (update u r.0 heap) us
            (All-mono _ _ us (InStack-update floor stack heap u r shut) h.1)))

  read-take :
      (floor : ℕ) (stack : List V) (st : UpvalueState V)
      → IsBelow floor st
      → read st (take floor stack) ≡ read st stack
  unfolding read
  read-take floor stack (open_at i) h = get_elem?-take floor i stack h
  read-take floor stack (closed v) h = refl

  -- When a frame's stack region is dropped, closing keeps what every captured variable holds: if the
  -- open upvalues point into the stack, `close_upvalues_above` does not panic, and each of them reads
  -- from the truncated stack what it read from the whole one.
  pub close_upvalues_above-read :
      (floor : ℕ) (stack : List V) (heap : ℕ → UpvalueState V) (ws : List ℕ)
      → All (λ w. InStack stack (heap w)) ws
      → (c : Closing V) × (close_upvalues_above floor stack heap ws ≡ some c)
        × All (λ w. read (c.heap w) (take floor stack) ≡ read (heap w) stack) ws
  close_upvalues_above-read floor stack heap ws h =
      let (c, e, k) = Returns-some _ _ (close_upvalues_above-Closed floor stack heap ws h) in
      (c, e, All-mono _ _ ws (λ w b. read-take floor stack (c.heap w) b ∙ k.reads w) k.below)

  -- One local captured by two closures, one after the other.
  abbrev pub capture_twice : ℕ → ℕ → ℕ → (ℕ → UpvalueState V) → (ℕ → UpvalueState V) × List ℕ
  capture_twice u w i heap =
      let (heap', ws) = capture_local u i heap [] in capture_local w i heap' ws
