-- ===== src/Manager/Action.antt =====
-- Steps on a state that stays as it is at a panic: the task ends there, the shared objects remain.
use rex_sm.Base.{Result, ok, panic, spent, ◌≡◌, ap, Option, unwrap as unwrap_result}

abbrev pub Action : Type 0 → Type 0 → Type 0
Action W A = W → W × Result A

infixl 5 ◌>>=◌ ◌>>◌
abbrev pub ◌>>=◌ : {W A B : Type 0} → Action W A → (A → Action W B) → Action W B
◌>>=◌ m f w = elim (m w).1 [
  | ok a ↦ f a (m w).0
  | panic ↦ ((m w).0, panic)
  | spent ↦ ((m w).0, spent)
]

abbrev pub ◌>>◌ : {W B : Type 0} → Action W (Unit {0}) → Action W B → Action W B
first >> second = first >>= λ done. second

abbrev pub return : {W A : Type 0} → A → Action W A
return a w = (w, ok a)

abbrev pub lift : {W A : Type 0} → Result A → Action W A
lift r w = (w, r)

abbrev pub unwrap : {W A : Type 0} → Option A → Action W A
unwrap o = lift (unwrap_result o)

abbrev pub modify : {W : Type 0} → (W → W) → Action W (Unit {0})
modify f w = (f w, ok tt)

-- a value read from the state
abbrev pub gets : {W A : Type 0} → (W → Result A) → Action W A
gets f w = (w, f w)

-- A step that returns hands its value and the state on.
pub >>=-ok :
    {W A B : Type 0} (m : Action W A) (f : A → Action W B) {w w' : W} {a : A}
    → m w ≡ (w', ok a)
    → (m >>= f) w ≡ f a w'
>>=-ok m f {a} e = rw (e, ◌>>=◌) (ap (λ u. f a u.0) e)

-- A step that panics is the last.
pub >>=-panic :
    {W A B : Type 0} (m : Action W A) (f : A → Action W B) {w w' : W}
    → m w ≡ (w', panic)
    → (m >>= f) w ≡ (w', panic)
>>=-panic m f e = rw (e, ◌>>=◌) (ap (λ u. (u.0, panic)) e)
