-- ===== src/Base/Maps.antt =====
-- `HashMap` as a list of entries with different keys, and maps that are built from lists of values.
use Prim.Native.Nat.{◌+◌, ◌≤◌}
use mathlib.Core.Path.{◌≡◌, refl, ap, ◌∙◌}
use mathlib.Core.Logic.{◌⊎◌, inl, inr}
use mathlib.Core.Bool.{Bool, true, false}
use mathlib.Core.Option.{Option, none, some}
use mathlib.Core.List.{List, [], ◌∷◌}
use native.Mathlib.Omega.{arith}
use rex_sm.Base.Defs.{if◌then◌else◌, eqb, eqb_self, eqb_sound, Bool-cases}
use rex_sm.Base.Lists.{length, push, length-append}

module _ {κ} {V : Type κ} where
  abbrev pub is_some : Option V → Bool
  is_some none = false
  is_some (some v) = true

  abbrev pub first : Option V → Option V → Option V
  first none o = o
  first (some v) o = some v

module _ {ℓ κ} {K : Type ℓ} {V : Type κ} (dec : Discrete K) where
  unfoldable pub map_get : List (K × V) → K → Option V
  map_get [] k = none
  map_get ((j, v) ∷ m) k = if eqb dec j k then some v else map_get m k

  unfoldable pub map_insert : K → V → List (K × V) → List (K × V)
  map_insert k v [] = (k, v) ∷ []
  map_insert k v ((j, old) ∷ m) = if eqb dec j k then (j, v) ∷ m else (j, old) ∷ map_insert k v m

  pub map_get-overwrite :
      (k j : K) (v : V) (m : List (K × V))
      → map_get (map_insert k v m) j ≡ (if eqb dec k j then some v else map_get m j)
  unfolding map_get map_insert
  map_get-overwrite k j v [] = refl
  map_get-overwrite k j v ((i, old) ∷ m) = elim (Bool-cases (eqb dec i k)) [
    | inl e ↦ rw (e, eqb_sound dec i k e) (ground arith)
    | inr e ↦ rw e (elim (Bool-cases (eqb dec i j)) [
      | inl d ↦ rw (d, ← eqb_sound dec i j d) (ground (arith, e))
      | inr d ↦ rw (d, map_get-overwrite k j v m)
    ])
  ]

  map_insert_fresh :
      (k : K) (v : V) (m : List (K × V))
      → is_some (map_get m k) ≡ false
      → map_insert k v m ≡ push m (k, v)
  unfolding map_get map_insert
  map_insert_fresh k v [] f = refl
  map_insert_fresh k v ((j, old) ∷ m) f = ground (arith, map_insert_fresh k v m)

  map_get-push :
      (k j : K) (v : V) (m : List (K × V))
      → map_get (push m (k, v)) j ≡ first (map_get m j) (if eqb dec k j then some v else none)
  unfolding map_get
  map_get-push k j v [] = refl
  map_get-push k j v ((i, old) ∷ m) = ground (arith, map_get-push k j v m)

  pub map_insert_size :
      (k : K) (v : V) (m : List (K × V)) → length (map_insert k v m) ≤ length m + 1
  unfolding map_insert
  map_insert_size k v [] = omega arith
  map_insert_size k v ((j, old) ∷ m) = let ih = map_insert_size k v m in ground (arith, ih)

  pub map_insert_old :
      (k : K) (v : V) (m : List (K × V))
      → is_some (map_get m k) ≡ true
      → length (map_insert k v m) ≡ length m
  unfolding map_get map_insert
  map_insert_old k v [] f = cc
  map_insert_old k v ((j, old) ∷ m) f = ground (arith, map_insert_old k v m)

  pub map_get-insert :
      (k j : K) (v : V) (m : List (K × V))
      → is_some (map_get m k) ≡ false
      → map_get (map_insert k v m) j ≡ first (map_get m j) (if eqb dec k j then some v else none)
  map_get-insert k j v m f = rw (map_insert_fresh k v m f) (map_get-push k j v m)

  pub length-fresh :
      (k : K) (v : V) (m : List (K × V))
      → is_some (map_get m k) ≡ false
      → length (map_insert k v m) ≡ length m + 1
  length-fresh k v m f = rw (map_insert_fresh k v m f, length-append)

module _ {ℓ κ} {K : Type ℓ} {V : Type κ} (dec : Discrete K) (key : V → K) where
  -- `collect` into a map
  unfoldable pub collect : List (K × V) → List V → List (K × V)
  unfolding map_insert
  collect m [] = m
  collect m (v ∷ vs) = collect (map_insert dec (key v) v m) vs

  -- whether a value of the list has the key
  unfoldable pub in_keys : K → List V → Bool
  in_keys k [] = false
  in_keys k (v ∷ vs) = if eqb dec (key v) k then true else in_keys k vs

  unfoldable pub are_distinct : List V → Bool
  unfolding in_keys
  are_distinct [] = true
  are_distinct (v ∷ vs) = if in_keys (key v) vs then false else are_distinct vs

  -- the value of the list with the key, the first if there were more
  unfoldable pub value_of : K → List V → Option V
  value_of k [] = none
  value_of k (v ∷ vs) = if eqb dec (key v) k then some v else value_of k vs

  collect_size : (m : List (K × V)) (vs : List V) → length (collect m vs) ≤ length m + length vs
  unfolding collect
  collect_size m [] = omega arith
  collect_size m (v ∷ vs) =
      omega (arith, collect_size (map_insert dec (key v) v m) vs, map_insert_size dec (key v) v m)

  -- No value of the list has a key that the map has.
  abbrev pub IsFresh : List (K × V) → List V → Type ℓ
  IsFresh m vs = (k : K) → in_keys k vs ≡ true → is_some (map_get dec m k) ≡ false

  pub IsFresh-head :
      (m : List (K × V)) (v : V) (vs : List V)
      → IsFresh m (v ∷ vs)
      → is_some (map_get dec m (key v)) ≡ false
  unfolding in_keys
  IsFresh-head m v vs f = f (key v) (rw (eqb_self dec (key v)))

  pub IsFresh-insert :
      (m : List (K × V)) (v : V) (vs : List V)
      → IsFresh m (v ∷ vs)
      → are_distinct (v ∷ vs) ≡ true
      → IsFresh (map_insert dec (key v) v m) vs
  unfolding in_keys are_distinct
  IsFresh-insert m v vs f d k h = elim (Bool-cases (eqb dec (key v) k)) [
    | inl e ↦
        let here : in_keys (key v) vs ≡ true =
          ap (λ j. in_keys j vs) (eqb_sound dec (key v) k e) ∙ h in
        absurd (ground arith)
    | inr e ↦
        let old : is_some (map_get dec m k) ≡ false = f k (rw e h) in
        rw (map_get-overwrite dec (key v) k v m, e) old
  ]

  pub collect_lem :
      (m : List (K × V)) (vs : List V)
      → IsFresh m vs
      → are_distinct vs ≡ true
      → (length (collect m vs) ≡ length m + length vs)
        × ((k : K) → map_get dec (collect m vs) k ≡ first (map_get dec m k) (value_of k vs))
  unfolding collect are_distinct value_of
  collect_lem m [] f d = (omega arith, λ k. ground arith)
  collect_lem m (v ∷ vs) f d =
      let new = IsFresh-head m v vs f in
      let (size, found) =
        collect_lem (map_insert dec (key v) v m) vs (IsFresh-insert m v vs f d) (ground arith) in
      (
        omega (arith, size, length-fresh dec (key v) v m new),
        λ k. rw (found k, map_get-insert dec (key v) k v m new) (ground arith),
      )

  -- Two values have one key, or one has a key that the map has.
  abbrev pub Clash : List (K × V) → List V → Type ℓ
  Clash m vs =
      ((k : K) × (is_some (map_get dec m k) ≡ true) × (in_keys k vs ≡ true))
      ⊎ (are_distinct vs ≡ false)

  pub Clash-insert :
      (m : List (K × V)) (v : V) (vs : List V)
      → is_some (map_get dec m (key v)) ≡ false
      → Clash m (v ∷ vs)
      → Clash (map_insert dec (key v) v m) vs
  unfolding in_keys are_distinct
  Clash-insert m v vs new (inl (k, old, h)) = elim (Bool-cases (eqb dec (key v) k)) [
    | inl e ↦ cc (ap (λ j. is_some (map_get dec m j)) (eqb_sound dec (key v) k e), new, old)
    | inr e ↦ inl (k, rw (map_get-insert dec (key v) k v m new) (ground arith), ground arith)
  ]
  Clash-insert m v vs new (inr d) = elim (Bool-cases (in_keys (key v) vs)) [
    | inl e ↦ inl (
      (key v),
      rw (map_get-insert dec (key v) (key v) v m new, eqb_self dec (key v)) (ground arith),
      e,
    )
    | inr e ↦ inr (ground arith)
  ]

  pub collect-Clash :
      (m : List (K × V)) (vs : List V)
      → Clash m vs
      → length (collect m vs) + 1 ≤ length m + length vs
  unfolding collect in_keys are_distinct
  collect-Clash m [] (inl (k, old, h)) = cc
  collect-Clash m [] (inr d) = cc
  collect-Clash m (v ∷ vs) c = elim (Bool-cases (is_some (map_get dec m (key v)))) [
    | inl e ↦
        omega
          (arith, collect_size (map_insert dec (key v) v m) vs, map_insert_old dec (key v) v m e)
    | inr e ↦ omega (
      arith,
      collect-Clash (map_insert dec (key v) v m) vs (Clash-insert m v vs e c),
      length-fresh dec (key v) v m e,
    )
  ]
