-- ===== src/Vm/Retries.antt =====
-- Transactions of the virtual machine: retries, commits, and how both stacks agree.
use y.Prelude.{
  ℕ, ◌+◌, ◌≤◌, ◌<◌, ltb, ◌==◌, ==→≡, true, false, List, [], ◌∷◌, ◌++◌, append_assoc, All, tail,
  take, length, Option, none, some, ◌≡◌, ◌≢◌, refl, ap, sym, subst, ◌∙◌, arith, if_cases, ==_refl,
}
use y.Prelude.Cases.{bool_split}
use y.Stm.{TransactionContext, fresh_context}
use y.Vm.Machine.{
  VmCtx, TransactHandler, Failure, exceeded_retries, retry_outside_transact, Outcome, go_on, error,
  frame_depth, set_top_ip, resumed, truncate, max_txn_retries, with_txns, failure,
}
use y.Vm.Transact.{targets, Found, push_transact, find_handler, retry_found, handle_retry}
use y.Vm.Balance.{SameLength, Balanced, Jumps, nonempty}

differs : (m n : ℕ) → (m == n) ≡ false → m ≢ n
differs m n e same = ground (arith, e, same)

module _ {P : Type 0} where
  -- Entering a transaction whose instruction the top handler does not name.
  push_transact-Balanced :
      (a : ℕ) (c : VmCtx P)
      → targets a c.transact_handlers ≡ false
      → Balanced c
      → Balanced (push_transact a c)
  unfolding push_transact
  push_transact-Balanced a c t b = rw t (omega (arith, b))

  -- The topmost handler of the current frame: those above it belong to other frames.
  pub record Topmost (c : VmCtx P) : Type 0 where
    pub above : List TransactHandler
    pub handler : TransactHandler
    pub others : List TransactHandler
    pub split : c.transact_handlers ≡ above ++ handler ∷ others
    pub mine : handler.frame_depth ≡ frame_depth c
    pub not_above : All (λ (g : TransactHandler). g.frame_depth ≢ frame_depth c) above

  -- What every retry within a transaction does: the handlers above are dropped with their contexts and the
  -- transaction's own, the operand stack is cut to its height at the entry, and no cell has changed.
  pub record RollsBack (c : VmCtx P) (t : Topmost c) (c' : VmCtx P) : Type 0 where
    pub contexts :
        (gone : List (TransactionContext P)) × (c.memory.txn_stack ≡ gone ++ c'.memory.txn_stack)
    pub matching : SameLength t.others c'.memory.txn_stack
    pub stack : c'.stack ≡ take t.handler.stack_depth c.stack
    pub cells : c'.memory.cells ≡ c.memory.cells

  -- The machine stands at the `PushTransact` of the transaction, with the count raised; executing that
  -- instruction gives every handler its context again, a fresh one on top.
  pub record Resumes (c : VmCtx P) (t : Topmost c) (c' : VmCtx P) : Type 0 where
    pub rolled : RollsBack c t c'
    pub handlers :
        c'.transact_handlers
        ≡ record t.handler { retry_count = t.handler.retry_count + 1 } ∷ t.others
    pub counted : t.handler.retry_count + 1 ≤ max_txn_retries
    pub frames : Jumps t.handler.retry_addr c c'
    pub entered :
        push_transact t.handler.retry_addr c' ≡ with_txns (fresh_context ∷ c'.memory.txn_stack) c'
    pub balanced : Balanced (push_transact t.handler.retry_addr c')

  -- How `Retry` ends.
  pub data Retried (c : VmCtx P) : Outcome P → Type 0 where
    resumes : {c' : VmCtx P} (t : Topmost c) → Resumes c t c' → Retried c (go_on c')
    exceeded :
        {c' : VmCtx P} (t : Topmost c)
        → max_txn_retries < t.handler.retry_count + 1
        → RollsBack c t c'
        → c'.transact_handlers ≡ t.others
        → Retried c (error (failure exceeded_retries) c')
    outside :
        All (λ (g : TransactHandler). g.frame_depth ≢ frame_depth c) c.transact_handlers
        → Retried c (error (failure retry_outside_transact) c)

  -- Executing the instruction that the top handler names enters its transaction again.
  push_transact-again :
      (h : TransactHandler) (hs : List TransactHandler) (c : VmCtx P)
      → c.transact_handlers ≡ h ∷ hs
      → push_transact h.retry_addr c ≡ with_txns (fresh_context ∷ c.memory.txn_stack) c
  unfolding push_transact
  push_transact-again h hs c e =
      let t : targets h.retry_addr c.transact_handlers ≡ true = rw e (==_refl h.retry_addr) in
      rw t refl

  -- What the search finds.
  abbrev Searched :
      ℕ → List TransactHandler → List (TransactionContext P) → Option (Found P) → Type 0
  Searched depth hs txns none = All (λ (g : TransactHandler). g.frame_depth ≢ depth) hs
  Searched depth hs txns (some f) =
      (above : List TransactHandler) × (gone : List (TransactionContext P)) × (hs
        ≡ above ++ f.handler ∷ f.others)
      × (f.handler.frame_depth ≡ depth)
      × All (λ (g : TransactHandler). g.frame_depth ≢ depth) above
      × (txns ≡ gone ++ f.txns)
      × SameLength (f.handler ∷ f.others) f.txns

  Searched-below :
      (depth : ℕ) (h : TransactHandler) (hs : List TransactHandler) (t : TransactionContext P)
      (txns : List (TransactionContext P)) (o : Option (Found P))
      → h.frame_depth ≢ depth
      → Searched depth hs txns o
      → Searched depth (h ∷ hs) (t ∷ txns) o
  Searched-below depth h hs t txns none n k = (n, k)
  Searched-below depth h hs t txns (some f) n (above, gone, split, mine, others, contexts, b) = (
    h ∷ above,
    t ∷ gone,
    ap (λ gs. h ∷ gs) split,
    mine,
    (n, others),
    ap (λ ts. t ∷ ts) contexts,
    b,
  )

  find_handler-Searched :
      (depth : ℕ) (hs : List TransactHandler) (txns : List (TransactionContext P))
      → SameLength hs txns
      → Searched depth hs txns (find_handler depth hs txns)
  unfolding find_handler
  find_handler-Searched depth [] txns b = tt
  find_handler-Searched depth (h ∷ hs) [] b = absurd (omega (arith, b))
  find_handler-Searched depth (h ∷ hs) (t ∷ txns) b =
      bool_split (Searched depth (h ∷ hs) (t ∷ txns)) (h.frame_depth == depth)
        (λ e. ([], [], refl, ==→≡ h.frame_depth depth e, tt, refl, b))
        (λ e.
          Searched-below depth h hs t txns (find_handler depth hs txns)
            (differs h.frame_depth depth e)
            (find_handler-Searched depth hs txns (omega (arith, b))))

  popped_one :
      (hs : List TransactHandler) (h : TransactHandler) (txns : List (TransactionContext P))
      → SameLength (h ∷ hs) txns
      → SameLength hs (tail txns)
        × ((top : List (TransactionContext P)) × (txns ≡ top ++ tail txns))
  popped_one hs h [] b = absurd (omega (arith, b))
  popped_one hs h (t ∷ txns) b = (omega (arith, b), (t ∷ [], refl))

  retry_found-Retried :
      (f : Found P) (c : VmCtx P)
      → c.frames ≢ []
      → Searched (frame_depth c) c.transact_handlers c.memory.txn_stack (some f)
      → Retried c (retry_found f c)
  unfolding retry_found
  retry_found-Retried f c framed (above, gone, split, mine, not_above, contexts, b) =
      let (rest, (top, below_top)) = popped_one f.others f.handler f.txns b in
      let t : Topmost c = record {
        above = above;
        handler = f.handler;
        others = f.others;
        split = split;
        mine = mine;
        not_above = not_above;
      } in
      let all_gone : c.memory.txn_stack ≡ (gone ++ top) ++ tail f.txns =
        contexts ∙ ap (λ ts. gone ++ ts) below_top ∙ sym (append_assoc gone top (tail f.txns)) in
      let rolled : (c' : VmCtx P)
          → c'.memory.txn_stack ≡ tail f.txns
          → c'.stack ≡ take f.handler.stack_depth c.stack
          → c'.memory.cells ≡ c.memory.cells
          → RollsBack c t c' =
        λ c' e s k. record {
          contexts = (gone ++ top, all_gone ∙ ap (λ ts. (gone ++ top) ++ ts) (sym e));
          matching = omega (arith, rest, ap length e);
          stack = s;
          cells = k;
        } in
      let (g, gs, ef) = nonempty c.frames framed in
      let raised : TransactHandler = record f.handler { retry_count = f.handler.retry_count + 1 } in
      let back : VmCtx P = record (truncate f.handler.stack_depth (with_txns (tail f.txns) c)) {
        transact_handlers = raised ∷ f.others;
      } in
      let c' : VmCtx P = record back { frames = record g { ip = f.handler.retry_addr } ∷ gs } in
      let entered = push_transact-again raised f.others c' refl in
      if_cases (Retried c) (ltb max_txn_retries (f.handler.retry_count + 1))
        (λ over. exceeded t (ground (arith, over)) (rolled _ refl refl refl) refl)
        (λ within.
          subst (λ x. Retried c (resumed x))
            (sym (ap (λ x. set_top_ip f.handler.retry_addr x back) ef))
            (resumes t (record {
              rolled = rolled c' refl refl refl;
              handlers = refl;
              counted = ground (arith, within);
              frames = (g, gs, ef, refl);
              entered = entered;
              balanced = rw entered (omega (arith, rest));
            })))

  -- When every handler has its context, in a frame, `retry` finds the topmost handler of the current frame,
  -- whatever transactions above it are still open. As long as its count, raised by one, is within the
  -- bound, the machine goes back to the start of that transaction, with the raised count; when it is not,
  -- the handler is dropped and the retry fails. Both drop the contexts of the transaction and of those
  -- above it. It fails, too, when the current frame has no handler, and then nothing has changed. It changes
  -- no cell.
  pub handle_retry-Retried : (c : VmCtx P) → Balanced c → c.frames ≢ [] → Retried c (handle_retry c)
  unfolding handle_retry
  handle_retry-Retried c b framed =
      found (find_handler (frame_depth c) c.transact_handlers c.memory.txn_stack)
        (find_handler-Searched (frame_depth c) c.transact_handlers c.memory.txn_stack b)
    where
      found :
          (o : Option (Found P))
          → Searched (frame_depth c) c.transact_handlers c.memory.txn_stack o
          → Retried c (elim o [
            | none ↦ error (failure Failure.retry_outside_transact) c
            | some f ↦ retry_found f c
          ])
      found none k = outside k
      found (some f) k = retry_found-Retried f c framed k
