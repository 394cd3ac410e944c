-- ===== src/Timeout/Count.antt =====
-- How often an id stands in a set, and in the sets of the timers.
use rex_sm.Base.{
  ℕ, suc, ◌+◌, ◌≤◌, ◌≡◌, refl, inl, inr, true, false, Option, none, some, List, [], ◌∷◌, ◌++◌,
  if◌then◌else◌, natb, eqb, eqb_self, eqb_sound, Bool-cases, Option-cases, set_insert, set_remove,
  contains, tree_modify, tree_entry, tree_get, tree_get-entry, tree_get-modify, IsAscending, arith,
}
use rex_sm.Timeout.Ledger.{or_default, insert_in}

module _ {ℓ} {Key : Type ℓ} (dec : Discrete Key) where
  abbrev pub count : Key → List Key → ℕ
  count z [] = 0
  count z (y ∷ ys) = if eqb dec y z then suc (count z ys) else count z ys

  pub count-append : (z : Key) (xs ys : List Key) → count z (xs ++ ys) ≡ count z xs + count z ys
  count-append z [] ys = omega arith
  count-append z (x ∷ xs) ys = ground (arith, count-append z xs ys)

  pub count_absent : (z : Key) (ys : List Key) → contains dec z ys ≡ false → count z ys ≡ 0
  unfolding contains
  count_absent z [] h = refl
  count_absent z (y ∷ ys) h = ground (arith, count_absent z ys)

  pub count_present : (z : Key) (ys : List Key) → contains dec z ys ≡ true → 1 ≤ count z ys
  unfolding contains
  count_present z [] h = cc
  count_present z (y ∷ ys) h = ground (arith, count_present z ys)

  pub count-set_insert_self :
      (z : Key) (ys : List Key) → count z ys ≤ 1 → count z (set_insert dec z ys) ≡ 1
  unfolding set_insert
  count-set_insert_self z ys h =
      ground (arith, count_absent z ys, count_present z ys, eqb_self dec z)

  pub count-set_insert_other :
      (x z : Key) (ys : List Key) → eqb dec x z ≡ false → count z (set_insert dec x ys) ≡ count z ys
  unfolding set_insert
  count-set_insert_other x z ys h = ground arith

  pub count-set_remove :
      (x z : Key) (ys : List Key)
      → count z (set_remove dec x ys) ≡ (if eqb dec x z then 0 else count z ys)
  unfolding set_remove
  count-set_remove x z [] = ground arith
  count-set_remove x z (y ∷ ys) = ground (arith, count-set_remove x z ys)

  abbrev pub count_at : Key → ℕ → List (ℕ × List Key) → ℕ
  count_at z t timers = count z (or_default (tree_get t timers))

  pub count-insert_in_self :
      (z : Key) (o : Option (List Key))
      → count z (or_default o) ≤ 1
      → count z (insert_in dec z o) ≡ 1
  count-insert_in_self z none h = count-set_insert_self z [] (omega arith)
  count-insert_in_self z (some ys) h =
      let once = count-set_insert_self z ys h in
      count-set_insert_self z (set_insert dec z ys) (omega (arith, once))

  pub count-insert_in_other :
      (x z : Key) (o : Option (List Key))
      → eqb dec x z ≡ false
      → count z (insert_in dec x o) ≡ count z (or_default o)
  count-insert_in_other x z none h = count-set_insert_other x z [] h
  count-insert_in_other x z (some ys) h =
      ground
        (arith, count-set_insert_other x z ys h, count-set_insert_other x z (set_insert dec x ys) h)

  count-insert_in :
      (x z : Key) (o : Option (List Key))
      → (eqb dec x z ≡ true → count z (or_default o) ≤ 1)
      → count z (insert_in dec x o) ≡ (if eqb dec x z then 1 else count z (or_default o))
  count-insert_in x z o once = elim (Bool-cases (eqb dec x z)) [
    | inl e ↦ rw e (rw (eqb_sound dec x z e) (count-insert_in_self z o (once e)))
    | inr e ↦ rw e (count-insert_in_other x z o e)
  ]

  pub count_at-entry :
      (x z : Key) (k t : ℕ) (timers : List (ℕ × List Key))
      → IsAscending 0 timers
      → (eqb dec x z ≡ true → count_at z k timers ≤ 1)
      → count_at z t (tree_entry k (insert_in dec x) timers) ≡ (
          if eqb dec x z
          then (if natb k t then 1 else count_at z t timers)
          else count_at z t timers)
  count_at-entry x z k t timers s once = elim (Bool-cases (natb k t)) [
    | inr e ↦ rw (tree_get-entry 0 k t (insert_in dec x) timers s, e) (ground arith)
    | inl e ↦
        let k≡t : k ≡ t = ground arith in
        rw (tree_get-entry 0 k t (insert_in dec x) timers s, e, ← k≡t)
          (count-insert_in x z (tree_get k timers) once)
  ]

  pub count_at-modify :
      (x z : Key) (k t : ℕ) (timers : List (ℕ × List Key))
      → count_at z t (tree_modify k (set_remove dec x) timers) ≡ (
          if eqb dec x z
          then (if natb k t then 0 else count_at z t timers)
          else count_at z t timers)
  count_at-modify x z k t timers = elim (Option-cases (tree_get t timers)) [
    | inl e ↦ rw (tree_get-modify k t (set_remove dec x) timers, e) (ground arith)
    | inr (s, e) ↦
        rw (tree_get-modify k t (set_remove dec x) timers, e)
          (ground (arith, count-set_remove x z s))
  ]
