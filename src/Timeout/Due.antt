-- ===== src/Timeout/Due.antt =====
-- Which ids a tick releases: those whose deadline lies before the tick, each once.
use rex_sm.Base.{
  ℕ, suc, ◌+◌, ◌≤◌, ◌≡◌, refl, ap, sym, ◌∙◌, true, Option, none, some, List, [], ◌∷◌, ◌++◌,
  if◌then◌else◌, natb, ltb, eqb_self, contains, tree_get, tree_before, tree_from, tree_get-before,
  tree_get-from, tree_get_below, tree_before-IsAscending, tree_from-IsAscending, IsAscending, arith,
}
use rex_sm.Queue.Deque.{StreamableDeque}
use rex_sm.Timeout.Ledger.{Ledger, or_default}
use rex_sm.Timeout.Manager.{Signal, values, tick}
use rex_sm.Timeout.Count.{count, count_at, count-append, count_absent, count_present}
use rex_sm.Timeout.Index.{due_at, IsIndexed}
use rex_sm.Timeout.Fire.{released, tick_ids}

-- 1 for a deadline that lies before `now`, 0 for any other and for none.
abbrev pub is_due : ℕ → Option ℕ → ℕ
is_due now none = 0
is_due now (some u) = if ltb u now then 1 else 0

-- What a tick leaves of a deadline.
abbrev pub remaining : ℕ → Option ℕ → Option ℕ
remaining now none = none
remaining now (some u) = if ltb u now then none else some u

abbrev expired : ℕ → Option ℕ → Option ℕ
expired now none = none
expired now (some u) = if ltb u now then some u else none

abbrev weight : Option ℕ → ℕ
weight none = 0
weight (some u) = 1

-- the deadline, once the entry at `k` is passed
abbrev past : ℕ → Option ℕ → Option ℕ
past k none = none
past k (some u) = if natb u k then none else some u

module _ {ℓ} {Key : Type ℓ} (dec : Discrete Key) (z : Key) where
  past_at :
      (k : ℕ) (o : Option ℕ) (s : List Key) (r : List (ℕ × List Key))
      → IsAscending (suc k) r
      → ((t : ℕ) → count_at dec z t ((k, s) ∷ r) ≡ due_at o t)
      → (t : ℕ) → count_at dec z t r ≡ due_at (past k o) t
  unfolding tree_get
  past_at k none s r asc h t = ground (arith, h t, tree_get_below (suc k) t r asc)
  past_at k (some u) s r asc h t = ground (arith, h t, tree_get_below (suc k) t r asc)

  pub count-values :
      (lo : ℕ) (o : Option ℕ) (l : List (ℕ × List Key))
      → IsAscending lo l
      → ((t : ℕ) → count_at dec z t l ≡ due_at o t)
      → count dec z (values l) ≡ weight o
  unfolding tree_get values
  count-values lo none [] asc h = refl
  count-values lo (some u) [] asc h = ground (arith, h u)
  count-values lo o ((k, s) ∷ r) asc h =
      let rest = count-values (suc k) (past k o) r asc.1 (past_at k o s r asc.1 h) in
      count-append dec z s (values r) ∙ split o (h k) rest
    where
      split :
          (o : Option ℕ)
          → count_at dec z k ((k, s) ∷ r) ≡ due_at o k
          → count dec z (values r) ≡ weight (past k o)
          → count dec z s + count dec z (values r) ≡ weight o
      split none e f = ground arith
      split (some u) e f = ground arith

module _ {ℓ} {Key : Type ℓ} (dec : Discrete Key) (ids : Key → Option ℕ) where
  -- Each id has a deadline, and the deadlines do not fall along the list.
  abbrev pub InOrder : ℕ → List Key → Type ℓ
  InOrder lo [] = Unit
  InOrder lo (x ∷ xs) = (u : ℕ) × (ids x ≡ some u) × (lo ≤ u) × InOrder u xs

  InOrder-mono : (a b : ℕ) (xs : List Key) → a ≤ b → InOrder b xs → InOrder a xs
  InOrder-mono a b [] h o = tt
  InOrder-mono a b (x ∷ xs) h (u, e, le, rest) = (u, e, omega arith, rest)

  InOrder-append :
      (lo k : ℕ) (s xs : List Key)
      → lo ≤ k
      → ((x : Key) → contains dec x s ≡ true → ids x ≡ some k)
      → InOrder k xs
      → InOrder lo (s ++ xs)
  unfolding contains
  InOrder-append lo k [] xs le h o = InOrder-mono lo k xs le o
  InOrder-append lo k (x ∷ s) xs le h o = (
    k,
    h x (ground (arith, eqb_self dec x)),
    le,
    InOrder-append k k s xs (omega arith) (λ y m. h y (ground arith)) o,
  )

  pub values-InOrder :
      (lo : ℕ) (l : List (ℕ × List Key))
      → IsAscending lo l
      → ((x : Key) (t : ℕ) → 1 ≤ count_at dec x t l → ids x ≡ some t)
      → InOrder lo (values l)
  unfolding values tree_get
  values-InOrder lo [] asc h = tt
  values-InOrder lo ((k, s) ∷ r) asc h =
      InOrder-append lo k s (values r) asc.0
        (λ x m. h x k (ground (arith, count_present dec x s m)))
        (InOrder-mono k (suc k) (values r) (omega arith) (
          values-InOrder (suc k) r asc.1
            (λ x t c. h x t (ground (arith, tree_get_below (suc k) t r asc.1)))))

module _ {ℓ} {Key T Input : Type ℓ} (dec : Discrete Key) (timeout_input : Key → ℕ → Option Input)
    (return_item : Key → T → Option Input) (now : ℕ) (l : Ledger Key T)
    (q : StreamableDeque (Signal Key Input)) (v : IsIndexed dec l) where
  due_before :
      (z : Key) (t : ℕ)
      → count_at dec z t (tree_before now l.timers) ≡ due_at (expired now (l.ids z)) t
  due_before z t = rw (tree_get-before now t l.timers) (go (l.ids z) (v.indexed z t))
    where
      go :
          (o : Option ℕ)
          → count_at dec z t l.timers ≡ due_at o t
          → count dec z (or_default (if ltb t now then tree_get t l.timers else none))
            ≡ due_at (expired now o) t
      go none e = ground arith
      go (some u) e = ground arith

  -- A tick releases the ids whose deadline lies before it, each once, and no other.
  pub count-released :
      (z : Key)
      → count dec z (released dec timeout_input return_item now l q) ≡ is_due now (l.ids z)
  count-released z =
      count-values dec z 0 (expired now (l.ids z)) (tree_before now l.timers)
        (tree_before-IsAscending 0 now l.timers v.timers_ascend) (due_before z)
      ∙ go (l.ids z)
    where
      go : (o : Option ℕ) → weight (expired now o) ≡ is_due now o
      go none = refl
      go (some u) = ground arith

  pub tick-remaining :
      (z : Key) → (tick dec timeout_input return_item now l q).0.ids z ≡ remaining now (l.ids z)
  tick-remaining z =
      tick_ids dec timeout_input return_item now l q z ∙ go (l.ids z) (count-released z)
    where
      fired : List Key
      fired = released dec timeout_input return_item now l q

      go :
          (o : Option ℕ)
          → count dec z fired ≡ is_due now o
          → (if contains dec z fired then none else o) ≡ remaining now o
      go none e = ground arith
      go (some u) e = ground (arith, count_absent dec z fired, count_present dec z fired)

  after_at :
      (z : Key) (t : ℕ)
      → count_at dec z t (tree_from now l.timers) ≡ due_at (remaining now (l.ids z)) t
  after_at z t = rw (tree_get-from now t l.timers) (go (l.ids z) (v.indexed z t))
    where
      go :
          (o : Option ℕ)
          → count_at dec z t l.timers ≡ due_at o t
          → count dec z (or_default (if ltb t now then none else tree_get t l.timers))
            ≡ due_at (remaining now o) t
      go none e = ground arith
      go (some u) e = ground arith

  pub tick-IsIndexed : IsIndexed dec (tick dec timeout_input return_item now l q).0
  unfolding tick
  tick-IsIndexed = record {
    timers_ascend = tree_from-IsAscending 0 now l.timers v.timers_ascend;
    retainer_ascends = tree_from-IsAscending 0 now l.retainer v.retainer_ascends;
    indexed = λ z t. after_at z t ∙ ap (λ o. due_at o t) (sym (tick-remaining z));
  }

  pub released-InOrder : InOrder dec l.ids 0 (released dec timeout_input return_item now l q)
  released-InOrder =
      values-InOrder dec l.ids 0 (tree_before now l.timers)
        (tree_before-IsAscending 0 now l.timers v.timers_ascend)
        (λ x t c. go (l.ids x) t (omega (arith, due_before x t)))
    where
      go : (o : Option ℕ) (t : ℕ) → 1 ≤ due_at (expired now o) t → o ≡ some t
      go none t h = absurd (omega arith)
      go (some u) t h = ground arith
