-- ===== src/Base/Sets.antt =====
-- `HashSet` as a list that holds an element once, `HashMap` as a function.
use mathlib.Core.Path.{◌≡◌, refl}
use mathlib.Core.Bool.{Bool, false, ◌||◌}
use mathlib.Core.List.{List, [], ◌∷◌, ◌++◌}
use native.Mathlib.Omega.{arith}
use rex_sm.Base.Defs.{if◌then◌else◌, eqb}

module _ {ℓ} {A : Type ℓ} (dec : Discrete A) where
  unfoldable pub contains : A → List A → Bool
  contains x [] = false
  contains x (y ∷ ys) = eqb dec y x || contains x ys

  pub contains-append :
      (x : A) (xs ys : List A) → contains x (xs ++ ys) ≡ (contains x xs || contains x ys)
  unfolding contains
  contains-append x [] ys = refl
  contains-append x (y ∷ xs) ys = ground (arith, contains-append x xs ys)

  -- `HashSet::insert`
  unfoldable pub set_insert : A → List A → List A
  unfolding contains
  set_insert x ys = if contains x ys then ys else x ∷ ys

  pub contains-set_insert :
      (x z : A) (ys : List A) → contains z (set_insert x ys) ≡ (eqb dec x z || contains z ys)
  unfolding set_insert contains
  contains-set_insert x z ys = ground arith

  -- `HashSet::remove`
  unfoldable pub set_remove : A → List A → List A
  set_remove x [] = []
  set_remove x (y ∷ ys) = if eqb dec y x then set_remove x ys else y ∷ set_remove x ys

  pub contains-set_remove :
      (x z : A) (ys : List A)
      → contains z (set_remove x ys) ≡ (if eqb dec x z then false else contains z ys)
  unfolding set_remove contains
  contains-set_remove x z [] = ground arith
  contains-set_remove x z (y ∷ ys) = ground (arith, contains-set_remove x z ys)
