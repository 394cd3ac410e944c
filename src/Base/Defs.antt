-- ===== src/Base/Defs.antt =====
-- Results, tests and the conditional.
use Prim.Native.Nat.{ℕ, compare, Ordering}
use mathlib.Core.Path.{◌≡◌, refl, ap, sym, ◌∙◌}
use mathlib.Core.Logic.{◌⊎◌, inl, inr, ite}
use mathlib.Core.Bool.{Bool, true, false}
use mathlib.Core.Option.{Option, none, some}
use native.Mathlib.Omega.{arith}

-- What a call of the program comes to: a value, a panic (`unwrap` of `None`, a failed `assert!`, an
-- index out of bounds), or, in the model of a `while` loop, the end of the fuel.
pub data Result {ℓ} (A : Type ℓ) : Type ℓ where
  ok : A → Result A
  panic : Result A
  spent : Result A

infixl 5 ◌>>=◌
abbrev pub ◌>>=◌ {ℓ κ} : {X : Type ℓ} {Y : Type κ} → Result X → (X → Result Y) → Result Y
ok x >>= next = next x
panic >>= next = panic
spent >>= next = spent

infixl 5 ◌>>◌
abbrev pub ◌>>◌ {κ} : {Y : Type κ} → Result (Unit {0}) → Result Y → Result Y
first >> second = first >>= λ done. second

-- `Option::unwrap` and `Option::expect`
abbrev pub unwrap {ℓ} : {A : Type ℓ} → Option A → Result A
unwrap none = panic
unwrap (some a) = ok a

-- `assert!`
abbrev pub assert : Bool → Result (Unit {0})
assert true = ok tt
assert false = panic

infix 1 if◌then◌else◌
abbrev pub if◌then◌else◌ {ℓ} : {A : Type ℓ} → Bool → A → A → A
if true then x else y = x
if false then x else y = y

abbrev pub ltb : ℕ → ℕ → Bool
ltb a b = elim (compare a b) [ Ordering.lt ↦ true | _ ↦ false ]

-- `==` of the native numbers
abbrev pub natb : ℕ → ℕ → Bool
natb a b = elim (compare a b) [ Ordering.eq ↦ true | _ ↦ false ]

-- `==` of a type with decidable equality
abbrev pub eqb {ℓ} : {A : Type ℓ} → Discrete A → A → A → Bool
eqb dec a b = ite (dec a b) true false

pub eqb_self {ℓ} : {A : Type ℓ} (dec : Discrete A) (a : A) → eqb dec a a ≡ true
eqb_self dec a = ground arith

pub eqb_sound {ℓ} : {A : Type ℓ} (dec : Discrete A) (a b : A) → eqb dec a b ≡ true → a ≡ b
eqb_sound dec a b h = ground arith

-- To split on a computed value and keep the equation.
pub Bool-cases : (b : Bool) → (b ≡ true) ⊎ (b ≡ false)
Bool-cases true = inl refl
Bool-cases false = inr refl

-- What holds of one and not of the other tells two values apart.
pub eqb_apart {ℓ} :
    {A : Type ℓ} (dec : Discrete A) (a b : A) (p : A → Bool)
    → p b ≡ true
    → p a ≡ false
    → eqb dec a b ≡ false
eqb_apart dec a b p hb ha = elim (Bool-cases (eqb dec a b)) [
  | inl e ↦ cc (ap p (eqb_sound dec a b e))
  | inr e ↦ e
]

pub Option-cases {ℓ} : {A : Type ℓ} (o : Option A) → (o ≡ none) ⊎ ((a : A) × (o ≡ some a))
Option-cases none = inl refl
Option-cases (some a) = inr (a, refl)

-- A function with one value at `x` and another away from it.
pub written_at {ℓ κ} :
    {A : Type ℓ} {B : Type κ} (dec : Discrete A) (x y : A) (f : A → B) {at away : B}
    → f x ≡ at
    → (eqb dec x y ≡ false → f y ≡ away)
    → f y ≡ (if eqb dec x y then at else away)
written_at dec x y f here there = elim (Bool-cases (eqb dec x y)) [
  | inl e ↦ rw e (ap f (sym (eqb_sound dec x y e)) ∙ here)
  | inr e ↦ rw e (there e)
]
