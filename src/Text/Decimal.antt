-- ===== src/Text/Decimal.antt =====
-- `format!("{n}")` and `format!("{n:02}")` of an unsigned number, and how such a number is read.
use Prim.Native.Nat.{◌*◌, ◌/◌, ◌%◌}
use rex_sm.Base.{
  ℕ, zero, suc, ◌+◌, ◌-◌, ◌≤◌, ◌<◌, ◌≡◌, refl, ap, Bool, true, false, ◌||◌, List, [], ◌∷◌, ◌++◌,
  natb, push, length, if◌then◌else◌, ltb, arith,
}

abbrev pub Text : Type 0
Text = List ℕ

-- the digits of `n`, of which there are at most one more than `fuel`
unfoldable pub digits : ℕ → ℕ → Text
digits zero n = (b'0' + n % 10) ∷ []
digits (suc fuel) n =
    let rest = digits fuel (n / 10) in
    if ltb n 10 then (b'0' + n) ∷ [] else push rest (b'0' + n % 10)

-- `{n}`: a number has no more digits than its own value says
unfoldable pub decimal : ℕ → Text
unfolding digits
decimal n = digits n n

-- `{n:02}`
unfoldable pub two_digits : ℕ → Text
unfolding decimal
two_digits n = if ltb n 10 then b'0' ∷ decimal n else decimal n

-- A reader: the number that is being read, after further digits.
unfoldable pub read_on : ℕ → Text → ℕ
read_on n [] = n
read_on n (c ∷ cs) = read_on (n * 10 + (c - b'0')) cs

-- whether a text is of digits
unfoldable pub all_digits : Text → Bool
all_digits [] = true
all_digits (c ∷ cs) = if ltb c b'0' || ltb b'9' c then false else all_digits cs

-- whether a character stands in a text
abbrev pub occurs : ℕ → Text → Bool
occurs c [] = false
occurs c (d ∷ ds) = natb d c || occurs c ds

pub occurs-append : (c : ℕ) (xs ys : Text) → occurs c (xs ++ ys) ≡ (occurs c xs || occurs c ys)
occurs-append c [] ys = refl
occurs-append c (x ∷ xs) ys = ground (arith, occurs-append c xs ys)

pub occurs-all_digits : (c : ℕ) (ds : Text) → all_digits ds ≡ true → b'9' < c → occurs c ds ≡ false
unfolding all_digits
occurs-all_digits c [] h lt = refl
occurs-all_digits c (d ∷ ds) h lt = ground (arith, occurs-all_digits c ds)

all_digits-push :
    (cs : Text) (c : ℕ) → all_digits cs ≡ true → b'0' ≤ c → c ≤ b'9' → all_digits (push cs c) ≡ true
unfolding all_digits
all_digits-push [] c h lo hi = ground arith
all_digits-push (d ∷ cs) c h lo hi = ground (arith, all_digits-push cs c)

read_on-push : (n : ℕ) (cs : Text) (c : ℕ) → read_on n (push cs c) ≡ read_on n cs * 10 + (c - b'0')
unfolding read_on
read_on-push n [] c = refl
read_on-push n (d ∷ cs) c = read_on-push (n * 10 + (d - b'0')) cs c

pub digits-all_digits : (fuel n : ℕ) → all_digits (digits fuel n) ≡ true
unfolding digits all_digits
digits-all_digits zero n = ground arith
digits-all_digits (suc fuel) n =
    ground (
      arith,
      digits-all_digits fuel (n / 10),
      all_digits-push (digits fuel (n / 10)) (b'0' + n % 10),
    )

read_on-digits : (fuel n : ℕ) → n ≤ fuel → read_on 0 (digits fuel n) ≡ n
unfolding digits read_on
read_on-digits zero n h = ground arith
read_on-digits (suc fuel) n h =
    ground
      (arith, read_on-digits fuel (n / 10), read_on-push 0 (digits fuel (n / 10)) (b'0' + n % 10))

pub decimal-all_digits : (n : ℕ) → all_digits (decimal n) ≡ true
unfolding decimal
decimal-all_digits n = digits-all_digits n n

pub read_on-decimal : (n : ℕ) → read_on 0 (decimal n) ≡ n
unfolding decimal
read_on-decimal n = read_on-digits n n (omega arith)

pub two_digits-all_digits : (n : ℕ) → all_digits (two_digits n) ≡ true
unfolding two_digits all_digits
two_digits-all_digits n = ground (arith, decimal-all_digits n)

pub read_on-two_digits : (n : ℕ) → read_on 0 (two_digits n) ≡ n
unfolding two_digits read_on
read_on-two_digits n = ground (arith, read_on-decimal n)

length-push : (cs : Text) (c : ℕ) → length (push cs c) ≡ suc (length cs)
length-push [] c = refl
length-push (d ∷ cs) c = ap suc (length-push cs c)

length-digits_one : (fuel n : ℕ) → n < 10 → length (digits fuel n) ≡ 1
unfolding digits
length-digits_one zero n h = refl
length-digits_one (suc fuel) n h = ground arith

length-digits_two : (fuel n : ℕ) → 10 ≤ n → n < 100 → 1 ≤ fuel → length (digits fuel n) ≡ 2
unfolding digits
length-digits_two zero n lo hi h = absurd (omega arith)
length-digits_two (suc fuel) n lo hi h =
    ground
      (arith, length-push (digits fuel (n / 10)) (b'0' + n % 10), length-digits_one fuel (n / 10))

-- A number below a hundred has two characters.
pub length-two_digits : (n : ℕ) → n < 100 → length (two_digits n) ≡ 2
unfolding two_digits decimal
length-two_digits n h = ground (arith, length-digits_one n n, length-digits_two n n)
