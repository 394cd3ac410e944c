-- ===== src/Base/Lists.antt =====
-- Vectors, by native indices: `push`, `swap_remove` and `swap` of `Vec`.
use Prim.Native.Nat.{ℕ, zero, suc, ◌+◌}
use mathlib.Core.Path.{◌≡◌, refl, ap}
use mathlib.Core.List.{List, [], ◌∷◌, ◌++◌}
use mathlib.Core.Option.{Option, none, some}
use native.Mathlib.Omega.{arith}
use rex_sm.Base.Defs.{Result, ok, panic, ◌>>=◌, unwrap, if◌then◌else◌, natb}

module _ {ℓ} {A : Type ℓ} where
  abbrev pub length : List A → ℕ
  length [] = 0
  length (x ∷ xs) = suc (length xs)

  abbrev pub get_elem? : List A → ℕ → Option A
  get_elem? [] i = none
  get_elem? (x ∷ xs) zero = some x
  get_elem? (x ∷ xs) (suc i) = get_elem? xs i

  -- A write out of bounds changes nothing.
  abbrev pub set : List A → ℕ → A → List A
  set [] i v = []
  set (x ∷ xs) zero v = v ∷ xs
  set (x ∷ xs) (suc i) v = x ∷ set xs i v

  pub length-append : (xs ys : List A) → length (xs ++ ys) ≡ length xs + length ys
  length-append [] ys = omega arith
  length-append (x ∷ xs) ys = omega (arith, length-append xs ys)

  -- `Vec::push`
  abbrev pub push : List A → A → List A
  push xs x = xs ++ x ∷ []

  -- The last element of `x ∷ xs`, and what stands before it.
  unfoldable pub last_of : A → List A → A
  last_of x [] = x
  last_of x (y ∷ ys) = last_of y ys

  unfoldable pub init_of : A → List A → List A
  init_of x [] = []
  init_of x (y ∷ ys) = x ∷ init_of y ys

  pub push-init_of : (x : A) (xs : List A) → push (init_of x xs) (last_of x xs) ≡ x ∷ xs
  unfolding init_of last_of
  push-init_of x [] = refl
  push-init_of x (y ∷ ys) = ap (◌∷◌ x) (push-init_of y ys)

  -- `Vec::swap_remove`: the element at the index, and the vector with its last element there.
  unfoldable pub swap_remove : List A → ℕ → Result (A × List A)
  unfolding last_of init_of
  swap_remove [] i = panic
  swap_remove (x ∷ []) zero = ok (x, [])
  swap_remove (x ∷ y ∷ ys) zero = ok (x, last_of y ys ∷ init_of y ys)
  swap_remove (x ∷ xs) (suc i) = do (v, rest) ← swap_remove xs i; ok (v, x ∷ rest)

  -- `Vec::swap`
  unfoldable pub swap : List A → ℕ → ℕ → Result (List A)
  swap xs i j = do
    a ← unwrap (get_elem? xs i)
    b ← unwrap (get_elem? xs j)
    ok (set (set xs i b) j a)

  get_elem?-push_last : (xs : List A) (w : A) → get_elem? (push xs w) (length xs) ≡ some w
  get_elem?-push_last [] w = refl
  get_elem?-push_last (x ∷ xs) w = get_elem?-push_last xs w

  set-push_last : (xs : List A) (v w : A) → set (push xs w) (length xs) v ≡ push xs v
  set-push_last [] v w = refl
  set-push_last (x ∷ xs) v w = ap (◌∷◌ x) (set-push_last xs v w)

  swap_cons :
      (x : A) (xs ys : List A) (i j : ℕ)
      → swap xs i j ≡ ok ys
      → swap (x ∷ xs) (suc i) (suc j) ≡ ok (x ∷ ys)
  unfolding swap
  swap_cons x xs ys i j h = ground arith

  -- To push another element in the place of the removed one and swap it back is a write.
  pub swap-swap_remove :
      (xs : List A) (i : ℕ) (v : A)
      → get_elem? xs i ≡ some v
      → (rest : List A) × (swap_remove xs i ≡ ok (v, rest))
        × ((w : A) → swap (push rest w) i (length rest) ≡ ok (set xs i w))
  unfolding swap_remove swap
  swap-swap_remove [] i v h = cc
  swap-swap_remove (x ∷ []) zero v h = ([], ground arith, λ w. refl)
  swap-swap_remove (x ∷ y ∷ ys) zero v h = (
    last_of y ys ∷ init_of y ys,
    ground arith,
    λ w. rw (get_elem?-push_last (init_of y ys) w, set-push_last, push-init_of y ys),
  )
  swap-swap_remove (x ∷ []) (suc i) v h = cc
  swap-swap_remove (x ∷ y ∷ ys) (suc i) v h =
      let (rest, removed, back) = swap-swap_remove (y ∷ ys) i v h in
      (x ∷ rest, rw removed, λ w. swap_cons x (push rest w) _ i (length rest) (back w))

  pub get_elem?-set :
      (xs : List A) (i j : ℕ) (old v : A)
      → get_elem? xs i ≡ some old
      → get_elem? (set xs i v) j ≡ (if natb i j then some v else get_elem? xs j)
  get_elem?-set [] i j old v h = cc
  get_elem?-set (x ∷ xs) zero zero old v h = refl
  get_elem?-set (x ∷ xs) zero (suc j) old v h = ground arith
  get_elem?-set (x ∷ xs) (suc i) zero old v h = ground arith
  get_elem?-set (x ∷ xs) (suc i) (suc j) old v h = ground (arith, get_elem?-set xs i j old v h)

  pub get_elem?-push :
      (xs : List A) (v : A) (j : ℕ)
      → get_elem? (push xs v) j ≡ (if natb (length xs) j then some v else get_elem? xs j)
  get_elem?-push [] v zero = refl
  get_elem?-push [] v (suc j) = ground arith
  get_elem?-push (x ∷ xs) v zero = ground arith
  get_elem?-push (x ∷ xs) v (suc j) = ground (arith, get_elem?-push xs v j)

  pub get_elem?-length : (xs : List A) → get_elem? xs (length xs) ≡ none
  get_elem?-length [] = refl
  get_elem?-length (x ∷ xs) = get_elem?-length xs
