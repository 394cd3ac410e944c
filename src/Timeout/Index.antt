-- ===== src/Timeout/Index.antt =====
-- The two indices of the ledger agree, after every operation.
use rex_sm.Base.{
  ℕ, ◌≤◌, ◌≡◌, refl, ap, sym, ◌∙◌, inl, inr, true, false, Option, none, some, if◌then◌else◌, natb,
  eqb, eqb_sound, Bool-cases, Option-cases, set_remove, tree_entry, tree_get,
  tree_modify-IsAscending, tree_entry-IsAscending, IsAscending, arith,
}
use rex_sm.Timeout.Ledger.{
  Ledger, new, with_key, insert_in, remove_old, set_timeout, cancel_timeout, retain,
}
use rex_sm.Timeout.Count.{count_at, count_at-entry, count_at-modify}

-- How often an id whose deadline is `o` is to stand in the set at `t`.
abbrev pub due_at : Option ℕ → ℕ → ℕ
due_at none t = 0
due_at (some u) t = if natb u t then 1 else 0

-- An id stands in the timers once, at its instant in `ids`, or not at all.
pub record IsIndexed {ℓ} {Key T : Type ℓ} (dec : Discrete Key) (l : Ledger Key T) : Type ℓ where
  pub timers_ascend : IsAscending 0 l.timers
  pub retainer_ascends : IsAscending 0 l.retainer
  pub indexed : (z : Key) (t : ℕ) → count_at dec z t l.timers ≡ due_at (l.ids z) t

module _ {ℓ} {Key T : Type ℓ} (dec : Discrete Key) where
  pub new-IsIndexed : IsIndexed {T = T} dec new
  unfolding new tree_get
  new-IsIndexed = record { timers_ascend = tt; retainer_ascends = tt; indexed = λ z t. refl }

  pub retain-IsIndexed :
      (l : Ledger Key T) (i : Key) (instant : ℕ) (item : T)
      → IsIndexed dec l
      → IsIndexed dec (retain l i instant item)
  unfolding retain
  retain-IsIndexed l i instant item v = record {
    timers_ascend = v.timers_ascend;
    retainer_ascends =
        tree_entry-IsAscending 0 instant _ l.retainer (omega arith) v.retainer_ascends;
    indexed = v.indexed;
  }

  module _ (l : Ledger Key T) (i : Key) (v : IsIndexed dec l) where
    cancelled :
        (u : ℕ) (z : Key) (t : ℕ)
        → l.ids i ≡ some u
        → (if eqb dec i z
            then (if natb u t then 0 else count_at dec z t l.timers)
            else count_at dec z t l.timers)
          ≡ due_at (with_key dec i none l.ids z) t
    unfolding with_key
    cancelled u z t e = elim (Bool-cases (eqb dec i z)) [
      | inr d ↦ rw d (v.indexed z t)
      | inl d ↦
          let at_z : l.ids z ≡ some u = ap l.ids (sym (eqb_sound dec i z d)) ∙ e in
          rw d (ground (arith, v.indexed z t, at_z))
    ]

    pub cancel_timeout-IsIndexed : IsIndexed dec (cancel_timeout dec l i)
    unfolding cancel_timeout
    cancel_timeout-IsIndexed = elim (Option-cases (l.ids i)) [
      | inl e ↦ rw (e, cancel_timeout) v
      | inr (u, e) ↦
          rw (e, cancel_timeout)
            (record {
              timers_ascend = tree_modify-IsAscending 0 u _ l.timers v.timers_ascend;
              retainer_ascends = v.retainer_ascends;
              indexed = λ z t. count_at-modify dec i z u t l.timers ∙ cancelled u z t e;
            })
    ]

    remove_old-IsAscending :
        (instant : ℕ) (o : Option ℕ) → IsAscending 0 (remove_old dec i instant o l.timers)
    unfolding remove_old
    remove_old-IsAscending instant none = v.timers_ascend
    remove_old-IsAscending instant (some u) =
        ground (arith, tree_modify-IsAscending 0 u (set_remove dec i) l.timers, v.timers_ascend)

    removed_other :
        (instant : ℕ) (o : Option ℕ) (z : Key) (t : ℕ)
        → eqb dec i z ≡ false
        → count_at dec z t (remove_old dec i instant o l.timers) ≡ count_at dec z t l.timers
    unfolding remove_old
    removed_other instant none z t d = refl
    removed_other instant (some u) z t d = ground (arith, count_at-modify dec i z u t l.timers, d)

    -- What is left of the id stands at the new instant.
    removed_self :
        (instant : ℕ) (o : Option ℕ) (z : Key) (t : ℕ)
        → eqb dec i z ≡ true
        → l.ids z ≡ o
        → count_at dec z t (remove_old dec i instant o l.timers) ≤ (if natb instant t then 1 else 0)
    unfolding remove_old
    removed_self instant none z t d e = ground (arith, v.indexed z t)
    removed_self instant (some u) z t d e =
        ground (arith, v.indexed z t, count_at-modify dec i z u t l.timers, d)

    set_at :
        (instant : ℕ) (z : Key) (t : ℕ)
        → count_at dec z t
            (tree_entry instant (insert_in dec i) (remove_old dec i instant (l.ids i) l.timers))
          ≡ due_at (with_key dec i (some instant) l.ids z) t
    unfolding with_key
    set_at instant z t =
        let timers = remove_old dec i instant (l.ids i) l.timers in
        let at_z = λ (d : eqb dec i z ≡ true). ap l.ids (sym (eqb_sound dec i z d)) in
        let once =
          λ (d : eqb dec i z ≡ true). removed_self instant (l.ids i) z instant d (at_z d) in
        count_at-entry dec i z instant t timers (remove_old-IsAscending instant (l.ids i))
          (λ d. ground (arith, once d))
        ∙ elim (Bool-cases (eqb dec i z)) [
          | inr d ↦ rw d (removed_other instant (l.ids i) z t d ∙ v.indexed z t)
          | inl d ↦ rw d (ground (arith, removed_self instant (l.ids i) z t d (at_z d)))
        ]

    pub set_timeout-IsIndexed : (instant : ℕ) → IsIndexed dec (set_timeout dec l i instant)
    unfolding set_timeout
    set_timeout-IsIndexed instant = record {
      timers_ascend =
          tree_entry-IsAscending 0 instant _ _ (omega arith)
            (remove_old-IsAscending instant (l.ids i));
      retainer_ascends = v.retainer_ascends;
      indexed = set_at instant;
    }
