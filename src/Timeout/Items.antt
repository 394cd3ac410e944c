-- ===== src/Timeout/Items.antt =====
-- Which of the retained items a tick gives back: those whose instant lies before it.
use rex_sm.Base.{
  ℕ, ◌≡◌, refl, sym, ◌∙◌, ap, inl, inr, List, [], ◌∷◌, ◌++◌, if◌then◌else◌, ltb, Bool-cases, true,
  false, tree_before, tree_from,
}
use rex_sm.Timeout.Manager.{values}

module _ {ℓ} {A : Type ℓ} where
  -- an item of an entry, with the instant of the entry
  abbrev pub stamp : ℕ → List A → List (ℕ × A)
  stamp u [] = []
  stamp u (x ∷ xs) = (u, x) ∷ stamp u xs

  -- every item of the entries with its instant
  abbrev pub stamped : List (ℕ × List A) → List (ℕ × A)
  stamped [] = []
  stamped ((u, xs) ∷ l) = stamp u xs ++ stamped l

  -- the items with an instant before `now`, in their order
  abbrev pub due_items : ℕ → List (ℕ × A) → List A
  due_items now [] = []
  due_items now ((u, x) ∷ l) = if ltb u now then x ∷ due_items now l else due_items now l

  -- the others, with their instants
  abbrev pub later_items : ℕ → List (ℕ × A) → List (ℕ × A)
  later_items now [] = []
  later_items now ((u, x) ∷ l) = if ltb u now then later_items now l else (u, x) ∷ later_items now l

  stamp-before :
      (now u : ℕ) (xs : List A) (l : List (ℕ × A))
      → ltb u now ≡ true
      → (due_items now (stamp u xs ++ l) ≡ xs ++ due_items now l)
        × (later_items now (stamp u xs ++ l) ≡ later_items now l)
  stamp-before now u [] l e = (refl, refl)
  stamp-before now u (x ∷ xs) l e =
      let (due, later) = stamp-before now u xs l e in rw e (ap (◌∷◌ x) due, later)

  stamp-from :
      (now u : ℕ) (xs : List A) (l : List (ℕ × A))
      → ltb u now ≡ false
      → (due_items now (stamp u xs ++ l) ≡ due_items now l)
        × (later_items now (stamp u xs ++ l) ≡ stamp u xs ++ later_items now l)
  stamp-from now u [] l e = (refl, refl)
  stamp-from now u (x ∷ xs) l e =
      let (due, later) = stamp-from now u xs l e in rw e (due, ap (◌∷◌ (u, x)) later)

  pub values-due_items :
      (now : ℕ) (l : List (ℕ × List A)) → values (tree_before now l) ≡ due_items now (stamped l)
  unfolding values tree_before
  values-due_items now [] = refl
  values-due_items now ((u, xs) ∷ l) = elim (Bool-cases (ltb u now)) [
    | inl e ↦
        rw e (ap (◌++◌ xs) (values-due_items now l) ∙ sym (stamp-before now u xs (stamped l) e).0)
    | inr e ↦ rw e (values-due_items now l ∙ sym (stamp-from now u xs (stamped l) e).0)
  ]

  pub stamped-later_items :
      (now : ℕ) (l : List (ℕ × List A)) → stamped (tree_from now l) ≡ later_items now (stamped l)
  unfolding tree_from
  stamped-later_items now [] = refl
  stamped-later_items now ((u, xs) ∷ l) = elim (Bool-cases (ltb u now)) [
    | inl e ↦ rw e (stamped-later_items now l ∙ sym (stamp-before now u xs (stamped l) e).1)
    | inr e ↦ rw e (
        ap (◌++◌ (stamp u xs)) (stamped-later_items now l)
        ∙ sym (stamp-from now u xs (stamped l) e).1)
  ]
