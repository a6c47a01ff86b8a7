-- ===== src/Env/Chain.antt =====
-- Assignment along the scope chain.
use y.Prelude.{
  ℕ, zero, suc, ◌<◌, ◌==◌, Text, same_text, same_text_refl, same_text→≡, Bool-cases, inl, inr, ◌≢◌,
  ◌≤◌, ap, sym, subst, List, [], ◌∷◌, Bool, true, false, Option, none, some, ◌≡◌, ◌∙◌, refl, arith,
  if_cases, ==_refl, ==→≡,
}
use y.Prelude.Loop.{Returns, Returns-some}
use y.Prelude.Cases.{option_split}
use y.Env.{
  child, new, has, has_from, Environment, Heap, find, put, store, define, get_from, get,
  assign_from, assign,
}

unlike : (name n : Text) → n ≢ name → same_text name n ≡ false
unlike name n d = elim (Bool-cases (same_text name n)) [
  | inl e ↦ absurd (d (sym (same_text→≡ name n e)))
  | inr e ↦ e
]

module _ {V : Type 0} where
  -- Every parent was allocated before its child.
  abbrev pub IsChained : Heap V → Type 0
  IsChained h = (a p : ℕ) → (h.frames a).parent ≡ some p → p < a

  find-put : (name : Text) (v : V) (bs : List (Text × V)) → find name (put name v bs) ≡ some v
  unfolding find put
  find-put name v [] = ground (arith, same_text_refl name)
  find-put name v ((n, w) ∷ bs) = ground (arith, same_text_refl name, find-put name v bs)

  find-put_other :
      (n name : Text) (v : V) (bs : List (Text × V))
      → same_text name n ≡ false
      → find n (put name v bs) ≡ find n bs
  unfolding find put
  find-put_other n name v [] d = ground (arith, d)
  find-put_other n name v ((k, w) ∷ bs) d = ground (arith, d, skipped, find-put_other n name v bs d)
    where
      skipped : same_text k name ≡ true → same_text k n ≡ false
      skipped e = ap (λ x. same_text x n) (same_text→≡ k name e) ∙ d

  -- The scope in which a name is bound, as seen from another: the first one up the chain.
  pub data Binds (h : Heap V) (name : Text) : ℕ → ℕ → Type 0 where
    here : {a : ℕ} (w : V) → find name (h.frames a).bindings ≡ some w → Binds h name a a
    outward :
        {a b : ℕ} (p : ℕ)
        → find name (h.frames a).bindings ≡ none
        → (h.frames a).parent ≡ some p
        → Binds h name p b
        → Binds h name a b

  -- Nothing but the value of the name in one scope is another.
  pub record Rebound (h : Heap V) (name : Text) (v : V) (b : ℕ) (h' : Heap V) : Type 0 where
    pub bound : find name (h'.frames b).bindings ≡ some v
    pub siblings :
        (n : Text) → n ≢ name → find n (h'.frames b).bindings ≡ find n (h.frames b).bindings
    pub parent : (h'.frames b).parent ≡ (h.frames b).parent
    pub elsewhere : (c : ℕ) → c ≢ b → h'.frames c ≡ h.frames c

  define-Rebound :
      (h : Heap V) (name : Text) (v : V) (a : ℕ) → Rebound h name v a (define name v a h)
  unfolding define store
  define-Rebound h name v a = record {
    bound = rw (==_refl a) (find-put name v (h.frames a).bindings);
    siblings =
        λ n d. rw (==_refl a) (find-put_other n name v (h.frames a).bindings (unlike name n d));
    parent = rw (==_refl a) refl;
    elsewhere = λ c d. ground (arith, d);
  }

  -- What an assignment at `a` with an outcome leaves.
  pub record Assigned (n : ℕ) (h : Heap V) (name : Text) (v : V) (a : ℕ) (r : Bool × Heap V)
      : Type 0 where
    pub found : r.0 ≡ true → get_from n r.1 name a ≡ some (some v)
    pub bound : r.0 ≡ true → (b : ℕ) × Binds h name a b × Rebound h name v b r.1
    pub missing : r.0 ≡ false → (r.1 ≡ h) × (get_from n h name a ≡ some none)
    pub above : (b : ℕ) → a < b → r.1.frames b ≡ h.frames b

  get_from-up :
      (n : ℕ) (h : Heap V) (name : Text) (a p : ℕ)
      → find name (h.frames a).bindings ≡ none
      → (h.frames a).parent ≡ some p
      → get_from (suc n) h name a ≡ get_from n h name p
  unfolding get_from
  get_from-up n h name a p e up = rw (e, up, get_from) refl

  module _ (n : ℕ) (h : Heap V) (name : Text) (v : V) (a : ℕ) where
    Assigned-here :
        (w : V)
        → find name (h.frames a).bindings ≡ some w
        → Assigned (suc n) h name v a (true, define name v a h)
    unfolding define store get_from
    Assigned-here w e = record {
      bound = λ _. (a, here w e, define-Rebound h name v a);
      found = λ _. rw (==_refl a, find-put name v (h.frames a).bindings, get_from) refl;
      missing = λ f. absurd (ground arith);
      above = λ b lt. ground arith;
    }

    Assigned-nowhere :
        find name (h.frames a).bindings ≡ none
        → (h.frames a).parent ≡ none
        → Assigned (suc n) h name v a (false, h)
    unfolding get_from
    Assigned-nowhere e none_above = record {
      bound = λ f. absurd (ground arith);
      found = λ f. absurd (ground arith);
      missing = λ _. (refl, rw (e, none_above, get_from) refl);
      above = λ b lt. refl;
    }

    Assigned-above :
        (p : ℕ) (o : Option (Bool × Heap V))
        → find name (h.frames a).bindings ≡ none
        → (h.frames a).parent ≡ some p
        → p < a
        → Returns (Assigned n h name v p) o
        → Returns (Assigned (suc n) h name v a) o
    Assigned-above p none e up lt k = k
    Assigned-above p (some r) e up lt k =
        let e' : find name (r.1.frames a).bindings ≡ none = rw (k.above a lt) e in
        let up' : (r.1.frames a).parent ≡ some p = rw (k.above a lt) up in
        record {
          found = λ t. get_from-up n r.1 name a p e' up' ∙ k.found t;
          bound = λ t. let (b, binds, changed) = k.bound t in (b, outward p e up binds, changed);
          missing = λ f. ((k.missing f).0, get_from-up n h name a p e up ∙ (k.missing f).1);
          above = λ b below. k.above b (omega arith);
        }

  assign_from-Assigned :
      (n : ℕ) (h : Heap V) (name : Text) (v : V) (a : ℕ)
      → IsChained h
      → a < n
      → Returns (Assigned n h name v a) (assign_from n h name v a)
  unfolding assign_from
  assign_from-Assigned zero h name v a c lt = absurd (omega arith)
  assign_from-Assigned (suc n) h name v a c lt =
      option_split (Returns (Assigned (suc n) h name v a)) (find name (h.frames a).bindings)
        (λ e.
          option_split (Returns (Assigned (suc n) h name v a)) (h.frames a).parent
            (λ top. Assigned-nowhere n h name v a e top)
            (λ p up.
              Assigned-above n h name v a p (assign_from n h name v p) e up (c a p up)
                (assign_from-Assigned n h name v p c (omega (arith, c a p up)))))
        (λ w e. Assigned-here n h name v a w e)

  -- The outcome of an assignment, as the next look-up from the same scope sees it.
  pub record Outcome (h : Heap V) (name : Text) (v : V) (a : ℕ) (r : Bool × Heap V) : Type 0 where
    pub found : r.0 ≡ true → get name a r.1 ≡ some (some v)
    pub bound : r.0 ≡ true → (b : ℕ) × Binds h name a b × Rebound h name v b r.1
    pub missing : r.0 ≡ false → (r.1 ≡ h) × (get name a h ≡ some none)

  -- On a chain without cycles an assignment ends. If it answers true, the first scope up the chain that
  -- binds the name has the new value for it, no other name and no other scope has changed, and the look-up
  -- from the scope of the assignment answers that value; if false, the name is bound nowhere and nothing
  -- changed.
  pub assign-Outcome :
      (h : Heap V) (name : Text) (v : V) (a : ℕ)
      → IsChained h
      → (r : Bool × Heap V) × (assign name v a h ≡ some r) × Outcome h name v a r
  unfolding assign get
  assign-Outcome h name v a c =
      let (r, e, k) = Returns-some _ _ (assign_from-Assigned (suc a) h name v a c (omega arith)) in
      (r, e, record { found = k.found; bound = k.bound; missing = k.missing })

  -- A new scope whose parent is allocated keeps the chain without cycles.
  pub child-IsChained :
      (parent : ℕ) (h : Heap V) → parent < h.fresh → IsChained h → IsChained (child parent h).1
  unfolding child new store
  child-IsChained parent h lt c a p e = ground (arith, c a p)

  abbrev pub answered : Option (Option V) → Option Bool
  answered none = none
  answered (some none) = some false
  answered (some (some v)) = some true

  answered-walk :
      (o : Option V) (up : Option ℕ) (f : ℕ → Option Bool) (g : ℕ → Option (Option V))
      → ((p : ℕ) → f p ≡ answered (g p))
      → (elim o [ some _ ↦ some true | none ↦ elim up [ none ↦ some false | some p ↦ f p ] ])
        ≡ answered
            (elim o [ some v ↦ some (some v) | none ↦ elim up [ none ↦ some none | some p ↦ g p ] ])
  answered-walk (some v) up f g k = refl
  answered-walk none none f g k = refl
  answered-walk none (some p) f g k = k p

  has_from-get_from :
      (n : ℕ) (h : Heap V) (name : Text) (a : ℕ)
      → has_from n h name a ≡ answered (get_from n h name a)
  unfolding has_from get_from
  has_from-get_from zero h name a = refl
  has_from-get_from (suc n) h name a =
      answered-walk (find name (h.frames a).bindings) (h.frames a).parent _ _
        (λ p. has_from-get_from n h name p)

  -- `has` answers whether `get` finds a value.
  pub has-get : (name : Text) (a : ℕ) (h : Heap V) → has name a h ≡ answered (get name a h)
  unfolding has get
  has-get name a h = has_from-get_from (suc a) h name a

  -- A definition keeps the chain without cycles.
  define-IsChained :
      (name : Text) (v : V) (a : ℕ) (h : Heap V) → IsChained h → IsChained (define name v a h)
  unfolding define store
  define-IsChained name v a h c b p =
      if_cases (λ (env : Environment V). env.parent ≡ some p → p < b) (b == a)
        (λ same up. c b p (rw (==→≡ b a same) up)) (λ _ up. c b p up)

  walk-agrees :
      (o : Option V) (up : Option ℕ) (f g : ℕ → Option (Option V))
      → ((p : ℕ) → up ≡ some p → f p ≡ g p)
      → (elim o [ some v ↦ some (some v) | none ↦ elim up [ none ↦ some none | some p ↦ f p ] ])
        ≡ (elim o [ some v ↦ some (some v) | none ↦ elim up [ none ↦ some none | some p ↦ g p ] ])
  walk-agrees (some v) up f g k = refl
  walk-agrees none none f g k = refl
  walk-agrees none (some p) f g k = k p refl

  -- A look-up depends on the older scopes only, and on no more fuel than needed.
  get_from-agrees :
      (n m : ℕ) (h h' : Heap V) (name : Text) (a : ℕ)
      → IsChained h
      → a < n
      → a < m
      → ((b : ℕ) → b ≤ a → h'.frames b ≡ h.frames b)
      → get_from m h' name a ≡ get_from n h name a
  unfolding get_from
  get_from-agrees zero m h h' name a c l k same = absurd (omega (arith, l))
  get_from-agrees (suc n) zero h h' name a c l k same = absurd (omega (arith, k))
  get_from-agrees (suc n) (suc m) h h' name a c l k same =
      subst
        (λ (env : Environment V).
          (elim (find name env.bindings) [
            | some v ↦ some (some v)
            | none ↦ elim env.parent [ none ↦ some none | some p ↦ get_from m h' name p ]
          ])
          ≡ get_from (suc n) h name a)
        (sym (same a (omega arith)))
        (walk-agrees (find name (h.frames a).bindings) (h.frames a).parent
          (λ p. get_from m h' name p) (λ p. get_from n h name p)
          (λ p e.
            get_from-agrees n m h h' name p c (omega (arith, l, c a p e))
              (omega (arith, k, c a p e)) (λ b le. same b (omega (arith, le, c a p e)))))

  child-sees :
      (h : Heap V) (a : ℕ) (n : Text)
      → IsChained h
      → a < h.fresh
      → get n (child a h).0 (child a h).1 ≡ get n a h
  unfolding get child new store find
  child-sees h a n c lt =
      let own : (child a h).1.frames h.fresh ≡ (record { bindings = []; parent = some a }) =
        rw (==_refl h.fresh) refl in
      get_from-up h.fresh (child a h).1 n h.fresh a
        (ap (λ (env : Environment V). find n env.bindings) own)
        (ap (λ (env : Environment V). env.parent) own)
      ∙ get_from-agrees (suc a) h.fresh h (child a h).1 n a c (omega arith) lt
          (λ b le. ground (arith, le, lt))

  define-get :
      (h : Heap V) (name : Text) (v : V) (a : ℕ) → get name a (define name v a h) ≡ some (some v)
  unfolding get get_from define store
  define-get h name v a = rw (==_refl a, find-put name v (h.frames a).bindings, get_from) refl

  child-apart :
      (h : Heap V) (name n : Text) (v : V) (a : ℕ)
      → IsChained h
      → a < h.fresh
      → get n a (define name v (child a h).0 (child a h).1) ≡ get n a h
  unfolding get child new define store
  child-apart h name n v a c lt =
      get_from-agrees (suc a) (suc a) h (define name v (child a h).0 (child a h).1) n a c
        (omega arith) (omega arith) (λ b le. ground (arith, le, lt))

  -- A scope opened under an allocated one sees what that one sees, for every name. What is defined in it is
  -- seen from it, and by no look-up from the scope around it; and the chain stays without cycles.
  pub child_scope :
      (h : Heap V) (name : Text) (v : V) (a : ℕ)
      → IsChained h
      → a < h.fresh
      → ((n : Text) → get n (child a h).0 (child a h).1 ≡ get n a h)
        × (get name (child a h).0 (define name v (child a h).0 (child a h).1) ≡ some (some v))
        × ((n : Text) → get n a (define name v (child a h).0 (child a h).1) ≡ get n a h)
        × IsChained (define name v (child a h).0 (child a h).1)
  child_scope h name v a c lt = (
    λ n. child-sees h a n c lt,
    define-get (child a h).1 name v (child a h).0,
    λ n. child-apart h name n v a c lt,
    define-IsChained name v (child a h).0 (child a h).1 (child-IsChained a h lt c),
  )
