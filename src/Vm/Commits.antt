-- ===== src/Vm/Commits.antt =====
-- The opcode `TransactCommit` of the virtual machine, branch by branch, and its two defects.
use y.Prelude.{
  ◌+◌, ◌<◌, ◌≤◌, ltb, true, false, List, [], ◌∷◌, ◌++◌, take, length, some, ◌≡◌, ◌≢◌, refl, sym, ap,
  subst, ◌∙◌, arith, if_cases, ==_refl,
}
use y.Stm.{Value, TransactionContext, conflicts, fresh_context, merge, apply_writes}
use y.Vm.Machine.{
  VmCtx, TransactHandler, exceeded_retries, Outcome, go_on, error, panic, set_top_ip,
  max_txn_retries, with_txns, failure, pop, popped, resumed, truncate, set_ip,
}
use y.Vm.Transact.{
  push_transact, and_pop, commit_conflict, commit_popped, commit_with, transact_commit,
}
use y.Vm.Balance.{SameLength, Balanced, Jumps, nonempty}

last_of :
    {A : Type 0} (x : A) (xs : List A)
    → (last : A) × (x ∷ xs ≡ take (length xs) (x ∷ xs) ++ last ∷ [])
last_of x [] = (x, refl)
last_of x (y ∷ ys) = let (last, e) = last_of y ys in (last, ap (λ zs. x ∷ zs) e)

module _ {P : Type 0} where
  -- The instruction pointer and the operand stack stay: the result of the body is on top.
  abbrev pub FallsThrough : VmCtx P → VmCtx P → Type 0
  FallsThrough c c' = (c'.frames ≡ c.frames) × (c'.stack ≡ c.stack)

  -- How the commit of a transaction ends.
  pub data Committed (c : VmCtx P) : Outcome P → Type 0 where
    outermost :
        {c' : VmCtx P} (ctx : TransactionContext P)
        → c.memory.txn_stack ≡ ctx ∷ []
        → conflicts ctx.reads c.memory.cells ≡ false
        → c'.memory ≡ (record { cells = apply_writes ctx.writes c.memory.cells; txn_stack = [] })
        → c'.transact_handlers ≡ []
        → FallsThrough c c'
        → Committed c (go_on c')
    nested :
        {c' : VmCtx P} (ctx parent : TransactionContext P) (stack : List (TransactionContext P))
        → c.memory.txn_stack ≡ ctx ∷ parent ∷ stack
        → c'.memory ≡ (record { cells = c.memory.cells; txn_stack = merge ctx parent ∷ stack })
        → Balanced c'
        → FallsThrough c c'
        → Committed c (go_on c')
    conflicted :
        {c' : VmCtx P} (ctx : TransactionContext P) (h : TransactHandler) (result : Value P)
        → c.memory.txn_stack ≡ ctx ∷ []
        → c.transact_handlers ≡ h ∷ []
        → conflicts ctx.reads c.memory.cells ≡ true
        → h.retry_count + 1 ≤ max_txn_retries
        → c'.transact_handlers ≡ record h { retry_count = h.retry_count + 1 } ∷ []
        → Jumps h.retry_addr c c'
        → c.stack ≡ c'.stack ++ result ∷ []
        → c'.memory ≡ (record { cells = c.memory.cells; txn_stack = fresh_context ∷ [] })
        → Committed c (go_on c')
    exceeded :
        {c' : VmCtx P} (ctx : TransactionContext P) (h : TransactHandler)
        → c.memory.txn_stack ≡ ctx ∷ []
        → c.transact_handlers ≡ h ∷ []
        → conflicts ctx.reads c.memory.cells ≡ true
        → max_txn_retries < h.retry_count + 1
        → c'.memory ≡ (record { cells = c.memory.cells; txn_stack = [] })
        → c'.transact_handlers ≡ []
        → Committed c (error (failure exceeded_retries) c')

  -- Back to the entry, when there is a frame and a result to be dropped.
  restarted :
      (ctx : TransactionContext P) (h : TransactHandler) (c : VmCtx P)
      → c.memory.txn_stack ≡ ctx ∷ []
      → c.transact_handlers ≡ h ∷ []
      → conflicts ctx.reads c.memory.cells ≡ true
      → h.retry_count + 1 ≤ max_txn_retries
      → c.frames ≢ []
      → c.stack ≢ []
      → Committed c (
          resumed (
            and_pop (
              set_ip h.retry_addr (
                with_txns (fresh_context ∷ []) (record c {
                  transact_handlers = record h { retry_count = h.retry_count + 1 } ∷ [];
                })))))
  restarted ctx h c t s clash within framed filled =
      let (f, fs, ef) = nonempty c.frames framed in
      let (v, vs, es) = nonempty c.stack filled in
      let (result, e) = last_of v vs in
      let again : VmCtx P =
        with_txns (fresh_context ∷ [])
          (record c { transact_handlers = record h { retry_count = h.retry_count + 1 } ∷ [] }) in
      let moved : set_ip h.retry_addr again
          ≡ some (record again { frames = record f { ip = h.retry_addr } ∷ fs }) =
        ap (λ x. set_top_ip h.retry_addr x again) ef in
      let dropped : pop (record again { frames = record f { ip = h.retry_addr } ∷ fs })
          ≡ some (
              truncate (length vs)
                (record again { frames = record f { ip = h.retry_addr } ∷ fs })) =
        ap (λ x. popped x (record again { frames = record f { ip = h.retry_addr } ∷ fs })) es in
      subst (λ o. Committed c (resumed o)) (sym (ap and_pop moved ∙ dropped))
        (conflicted ctx h result t s clash within refl (f, fs, ef, refl)
          (es ∙ e ∙ ap (λ x. take (length vs) x ++ result ∷ []) (sym es)) refl)

  commit_with-outermost :
      (ctx : TransactionContext P) (h : TransactHandler) (c : VmCtx P)
      → c.memory.txn_stack ≡ ctx ∷ []
      → c.transact_handlers ≡ h ∷ []
      → c.frames ≢ []
      → c.stack ≢ []
      → Committed c (commit_with (ctx ∷ []) (h ∷ []) c)
  unfolding commit_popped commit_conflict
  commit_with-outermost ctx h c t s framed filled =
      if_cases (Committed c) (conflicts ctx.reads c.memory.cells)
        (λ clash.
          if_cases (Committed c) (ltb max_txn_retries (h.retry_count + 1))
            (λ over. exceeded ctx h t s clash (ground (arith, over)) refl refl)
            (λ within. restarted ctx h c t s clash (ground (arith, within)) framed filled))
        (λ clear. outermost ctx t clear refl refl (refl, refl))

  commit_with-Committed :
      (txns : List (TransactionContext P)) (hs : List TransactHandler) (c : VmCtx P)
      → c.memory.txn_stack ≡ txns
      → c.transact_handlers ≡ hs
      → SameLength hs txns
      → hs ≢ []
      → c.frames ≢ []
      → c.stack ≢ []
      → Committed c (commit_with txns hs c)
  commit_with-Committed txns [] c t s b n framed filled = absurd (n refl)
  commit_with-Committed [] (h ∷ hs) c t s b n framed filled = absurd (omega (arith, b))
  commit_with-Committed (ctx ∷ []) (h ∷ []) c t s b n framed filled =
      commit_with-outermost ctx h c t s framed filled
  commit_with-Committed (ctx ∷ []) (h ∷ g ∷ hs) c t s b n framed filled = absurd (omega (arith, b))
  commit_with-Committed (ctx ∷ parent ∷ stack) (h ∷ hs) c t s b n framed filled =
      let balanced : SameLength hs (merge ctx parent ∷ stack) = omega (arith, b) in
      unfold commit_popped in nested ctx parent stack t refl balanced (refl, refl)

  -- In a transaction, with a context for every handler, in a frame and with a result on the operand stack, a
  -- commit never panics. A nested one hands its sets to its parent and touches no cell. An outermost one
  -- whose reads are current applies its writes and leaves no transaction behind. With a stale read it changes
  -- no cell: as long as the raised count is within the bound it goes back to the entry with that count, a
  -- fresh context and without the result; when it is not, it fails and leaves no transaction behind.
  pub transact_commit-Committed :
      (c : VmCtx P)
      → Balanced c
      → c.transact_handlers ≢ []
      → c.frames ≢ []
      → c.stack ≢ []
      → Committed c (transact_commit c)
  unfolding transact_commit
  transact_commit-Committed c b n framed filled =
      commit_with-Committed c.memory.txn_stack c.transact_handlers c refl refl b n framed filled

  -- A machine with one transaction open.
  abbrev pub in_transact : TransactHandler → TransactionContext P → VmCtx P → VmCtx P
  in_transact h ctx c = with_txns (ctx ∷ []) (record c { transact_handlers = h ∷ [] })

  abbrev pub with_top :
      TransactionContext P → List (TransactionContext P) → List (TransactionContext P)
  with_top ctx [] = []
  with_top ctx (_ ∷ stack) = ctx ∷ stack

  -- The body of a transaction that buffers: what it makes of the top context.
  abbrev pub buffer : TransactionContext P → VmCtx P → VmCtx P
  buffer ctx c = with_txns (with_top ctx c.memory.txn_stack) c

  -- When a machine with one transaction open, whose count is below the bound, commits with a stale
  -- read, in a frame and with a result on the operand stack, it goes on; and after the `PushTransact` that it
  -- jumps to, whatever the second run of the body buffers, the next commit changes no cell, drops the
  -- handler, and leaves one context with those writes.
  pub conflict_loses_writes :
      (c : VmCtx P) (h : TransactHandler) (ctx ctx' : TransactionContext P)
      → conflicts ctx.reads c.memory.cells ≡ true
      → h.retry_count < max_txn_retries
      → c.frames ≢ []
      → c.stack ≢ []
      → (again after : VmCtx P) × (transact_commit (in_transact h ctx c) ≡ go_on again)
        × (transact_commit (buffer ctx' (push_transact h.retry_addr again)) ≡ go_on after)
        × (after.transact_handlers ≡ [])
        × (after.memory
            ≡ (record { cells = c.memory.cells; txn_stack = merge ctx' fresh_context ∷ [] }))
  unfolding transact_commit commit_popped commit_conflict push_transact
  conflict_loses_writes c h ctx ctx' clash lt framed filled =
      let few : ltb max_txn_retries (h.retry_count + 1) ≡ false = ground arith in
      let (f, fs, ef) = nonempty c.frames framed in
      let (v, vs, es) = nonempty c.stack filled in
      let back : VmCtx P =
        in_transact (record h { retry_count = h.retry_count + 1 }) fresh_context c in
      let again : VmCtx P =
        truncate (length vs) (record back { frames = record f { ip = h.retry_addr } ∷ fs }) in
      let after : VmCtx P =
        with_txns (merge ctx' fresh_context ∷ []) (record again { transact_handlers = [] }) in
      let dropped : resumed (and_pop (set_ip h.retry_addr back)) ≡ go_on again =
        ap (λ x. resumed (and_pop (set_top_ip h.retry_addr x back))) ef
        ∙ ap
            (λ x. resumed (popped x (record back { frames = record f { ip = h.retry_addr } ∷ fs })))
            es in
      (again, after, rw (clash, few) dropped, rw (==_refl h.retry_addr) refl, refl, refl)

  -- When a machine with one transaction open executes a `PushTransact` at the same address, as a
  -- function does that calls itself within the transaction, then of the two commits that follow the
  -- first goes on and the second panics.
  pub reentry_panics :
      (c : VmCtx P) (h : TransactHandler) (ctx inner : TransactionContext P)
      → (after : VmCtx P) × (transact_commit
            (buffer inner (push_transact h.retry_addr (in_transact h ctx c)))
          ≡ go_on after)
        × (transact_commit after ≡ panic)
  unfolding transact_commit commit_popped push_transact
  reentry_panics c h ctx inner = rw (==_refl h.retry_addr) (_, refl, refl)
