-- ===== src/Base/Ordered.antt =====
-- `BTreeMap` over the native numbers, as the list of its entries by ascending key.
use Prim.Native.Nat.{ℕ, suc, ◌≤◌, ◌<◌}
use mathlib.Core.Path.{◌≡◌, refl}
use mathlib.Core.List.{List, [], ◌∷◌}
use mathlib.Core.Option.{Option, none, some}
use mathlib.Core.Option
use native.Mathlib.Omega.{arith}
use rex_sm.Base.Defs.{if◌then◌else◌, ltb, natb}

module _ {ℓ} {V : Type ℓ} where
  unfoldable pub tree_get : ℕ → List (ℕ × V) → Option V
  tree_get k [] = none
  tree_get k ((j, v) ∷ l) = if natb j k then some v else tree_get k l

  -- `get_mut(k).map(f)`
  unfoldable pub tree_modify : ℕ → (V → V) → List (ℕ × V) → List (ℕ × V)
  tree_modify k f [] = []
  tree_modify k f ((j, v) ∷ l) = if natb j k then (j, f v) ∷ l else (j, v) ∷ tree_modify k f l

  -- `entry(k)`: `f` gives the new value from the old one, if there is one
  unfoldable pub tree_entry : ℕ → (Option V → V) → List (ℕ × V) → List (ℕ × V)
  tree_entry k f [] = (k, f none) ∷ []
  tree_entry k f ((j, v) ∷ l) =
      if ltb k j
      then (k, f none) ∷ (j, v) ∷ l
      else if natb j k
      then (j, f (some v)) ∷ l
      else (j, v) ∷ tree_entry k f l

  -- `split_off(&k)` leaves the first part in place and returns the second.
  unfoldable pub tree_before : ℕ → List (ℕ × V) → List (ℕ × V)
  tree_before k [] = []
  tree_before k ((j, v) ∷ l) = if ltb j k then (j, v) ∷ tree_before k l else tree_before k l

  unfoldable pub tree_from : ℕ → List (ℕ × V) → List (ℕ × V)
  tree_from k [] = []
  tree_from k ((j, v) ∷ l) = if ltb j k then tree_from k l else (j, v) ∷ tree_from k l

  -- The keys ascend strictly, from `lo` on.
  abbrev pub IsAscending : ℕ → List (ℕ × V) → Type 0
  IsAscending lo [] = Unit {0}
  IsAscending lo ((k, v) ∷ l) = (lo ≤ k) × IsAscending (suc k) l

  pub IsAscending-mono : {a b : ℕ} (l : List (ℕ × V)) → a ≤ b → IsAscending b l → IsAscending a l
  IsAscending-mono [] h s = tt
  IsAscending-mono ((k, v) ∷ l) h s = (omega arith, s.1)

  pub tree_get_below :
      (lo k : ℕ) (l : List (ℕ × V)) → IsAscending lo l → k < lo → tree_get k l ≡ none
  unfolding tree_get
  tree_get_below lo k [] s h = refl
  tree_get_below lo k ((j, v) ∷ l) s h = ground (arith, tree_get_below (suc j) k l s.1)

  pub tree_get-modify :
      (k j : ℕ) (f : V → V) (l : List (ℕ × V))
      → tree_get j (tree_modify k f l)
        ≡ (if natb k j then Option.map f (tree_get j l) else tree_get j l)
  unfolding tree_get tree_modify
  tree_get-modify k j f [] = ground arith
  tree_get-modify k j f ((i, v) ∷ l) = ground (arith, tree_get-modify k j f l)

  pub tree_modify-IsAscending :
      (lo k : ℕ) (f : V → V) (l : List (ℕ × V))
      → IsAscending lo l
      → IsAscending lo (tree_modify k f l)
  unfolding tree_modify
  tree_modify-IsAscending lo k f [] s = tt
  tree_modify-IsAscending lo k f ((i, v) ∷ l) s =
      ground (arith, tree_modify-IsAscending (suc i) k f l s.1)

  pub tree_get-entry :
      (lo k j : ℕ) (f : Option V → V) (l : List (ℕ × V))
      → IsAscending lo l
      → tree_get j (tree_entry k f l) ≡ (if natb k j then some (f (tree_get k l)) else tree_get j l)
  unfolding tree_get tree_entry
  tree_get-entry lo k j f [] s = ground arith
  tree_get-entry lo k j f ((i, v) ∷ l) s =
      ground (arith, tree_get-entry (suc i) k j f l s.1, tree_get_below (suc i) k l s.1)

  pub tree_entry-IsAscending :
      (lo k : ℕ) (f : Option V → V) (l : List (ℕ × V))
      → lo ≤ k
      → IsAscending lo l
      → IsAscending lo (tree_entry k f l)
  unfolding tree_entry
  tree_entry-IsAscending lo k f [] h s = (h, tt)
  tree_entry-IsAscending lo k f ((i, v) ∷ l) h s =
      ground (arith, tree_entry-IsAscending (suc i) k f l, s.1)

  pub tree_get-before :
      (k j : ℕ) (l : List (ℕ × V))
      → tree_get j (tree_before k l) ≡ (if ltb j k then tree_get j l else none)
  unfolding tree_get tree_before
  tree_get-before k j [] = ground arith
  tree_get-before k j ((i, v) ∷ l) = ground (arith, tree_get-before k j l)

  pub tree_get-from :
      (k j : ℕ) (l : List (ℕ × V))
      → tree_get j (tree_from k l) ≡ (if ltb j k then none else tree_get j l)
  unfolding tree_get tree_from
  tree_get-from k j [] = ground arith
  tree_get-from k j ((i, v) ∷ l) = ground (arith, tree_get-from k j l)

  pub tree_before-IsAscending :
      (lo k : ℕ) (l : List (ℕ × V)) → IsAscending lo l → IsAscending lo (tree_before k l)
  unfolding tree_before
  tree_before-IsAscending lo k [] s = tt
  tree_before-IsAscending lo k ((i, v) ∷ l) s = ground (
    arith,
    tree_before-IsAscending (suc i) k l s.1,
    IsAscending-mono {a = lo} {b = suc i} (tree_before k l),
  )

  pub tree_from-IsAscending :
      (lo k : ℕ) (l : List (ℕ × V)) → IsAscending lo l → IsAscending lo (tree_from k l)
  unfolding tree_from
  tree_from-IsAscending lo k [] s = tt
  tree_from-IsAscending lo k ((i, v) ∷ l) s = ground (
    arith,
    tree_from-IsAscending (suc i) k l s.1,
    IsAscending-mono {a = lo} {b = suc i} (tree_from k l),
  )
