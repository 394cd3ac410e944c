-- ===== src/Text/Hms.antt =====
-- src/timeout.rs: `hms_string`, and the seconds that its text says.
use Prim.Native.Nat.{◌*◌, ◌/◌, ◌%◌}
use mathlib.Core.List.{append_assoc}
use rex_sm.Base.{
  ℕ, ◌+◌, ◌-◌, ◌≤◌, ◌<◌, ◌≡◌, refl, ap, ◌∙◌, Bool, true, false, not, ◌&&◌, ◌||◌, Option, none, some,
  [], ◌∷◌, ◌++◌, length, length-append, if◌then◌else◌, natb, Bool-cases, inl, inr, arith,
}
use rex_sm.Text.Decimal.{
  Text, decimal, two_digits, read_on, all_digits, two_digits-all_digits, read_on-two_digits,
  length-two_digits, occurs, occurs-append, occurs-all_digits,
}

pub record Duration : Type 0 where
  pub secs : ℕ
  pub nanos : ℕ

unfoldable pub is_zero : Duration → Bool
is_zero d = natb d.secs 0 && natb d.nanos 0

unfoldable pub subsec_millis : Duration → ℕ
subsec_millis d = d.nanos / 1_000_000

-- a part that is left out where it is zero
abbrev pub part : ℕ → ℕ → Text
part n unit = if natb n 0 then [] else two_digits n ++ (unit ∷ [])

unfoldable pub hms_string : Duration → Text
unfolding is_zero subsec_millis
hms_string d =
    if is_zero d
    then b'Z' ∷ b'E' ∷ b'R' ∷ b'O' ∷ []
    else if natb d.secs 0
    then decimal (subsec_millis d) ++ (b'm' ∷ b's' ∷ [])
    else (let h = d.secs / 3600 in
        let rest = d.secs % 3600 in
        part h b'H' ++ part (rest / 60) b'm' ++ (two_digits (rest % 60) ++ (b's' ∷ [])))

-- A reader of such a text: the seconds before, the number that is being read, and the rest.
unfoldable pub read_parts : ℕ → ℕ → Text → Option ℕ
read_parts total n [] = none
read_parts total n (c ∷ cs) =
    if natb c b'H'
    then read_parts (total + n * 3600) 0 cs
    else if natb c b'm'
    then read_parts (total + n * 60) 0 cs
    else if natb c b's'
    then some (total + n)
    else read_parts total (n * 10 + (c - b'0')) cs

abbrev pub read_hms : Text → Option ℕ
read_hms = read_parts 0 0

-- digits are read as the number that they say
read_parts-digits :
    (total n : ℕ) (ds cs : Text)
    → all_digits ds ≡ true
    → read_parts total n (ds ++ cs) ≡ read_parts total (read_on n ds) cs
unfolding read_parts read_on all_digits
read_parts-digits total n [] cs h = refl
read_parts-digits total n (d ∷ ds) cs h =
    ground (arith, read_parts-digits total (n * 10 + (d - b'0')) ds cs)

read_parts-two_digits :
    (total n : ℕ) (cs : Text) → read_parts total 0 (two_digits n ++ cs) ≡ read_parts total n cs
read_parts-two_digits total n cs =
    read_parts-digits total 0 (two_digits n) cs (two_digits-all_digits n)
    ∙ ap (λ m. read_parts total m cs) (read_on-two_digits n)

read_hours :
    (total n : ℕ) (cs : Text)
    → read_parts total 0 (part n b'H' ++ cs) ≡ read_parts (total + n * 3600) 0 cs
unfolding read_parts
read_hours total n cs = elim (Bool-cases (natb n 0)) [
  | inl e ↦ rw e (ap (λ t. read_parts t 0 cs) (ground (arith, e)))
  | inr e ↦ rw e (
      ap (read_parts total 0) (append_assoc (two_digits n) (b'H' ∷ []) cs)
      ∙ read_parts-two_digits total n (b'H' ∷ cs))
]

read_minutes :
    (total n : ℕ) (cs : Text)
    → read_parts total 0 (part n b'm' ++ cs) ≡ read_parts (total + n * 60) 0 cs
unfolding read_parts
read_minutes total n cs = elim (Bool-cases (natb n 0)) [
  | inl e ↦ rw e (ap (λ t. read_parts t 0 cs) (ground (arith, e)))
  | inr e ↦ rw e (
      ap (read_parts total 0) (append_assoc (two_digits n) (b'm' ∷ []) cs)
      ∙ read_parts-two_digits total n (b'm' ∷ cs))
]

abbrev hours_of : Duration → Text
hours_of d = part (d.secs / 3600) b'H'

abbrev minutes_of : Duration → Text
minutes_of d = part (d.secs % 3600 / 60) b'm'

abbrev seconds_of : Duration → Text
seconds_of d = two_digits (d.secs % 3600 % 60) ++ (b's' ∷ [])

hms_string_lem :
    (d : Duration) → 1 ≤ d.secs → hms_string d ≡ hours_of d ++ (minutes_of d ++ seconds_of d)
unfolding hms_string is_zero
hms_string_lem d h =
    let some_secs : natb d.secs 0 ≡ false = ground arith in
    rw (hms_string, is_zero, some_secs) (append_assoc (hours_of d) (minutes_of d) (seconds_of d))

read_hms_lem : (d : Duration) → 1 ≤ d.secs → read_hms (hms_string d) ≡ some d.secs
unfolding read_parts
read_hms_lem d h =
    let total = d.secs / 3600 * 3600 in
    let total' = total + d.secs % 3600 / 60 * 60 in
    ap read_hms (hms_string_lem d h)
    ∙ read_hours 0 (d.secs / 3600) (minutes_of d ++ seconds_of d)
    ∙ ap (λ t. read_parts t 0 (minutes_of d ++ seconds_of d)) (omega arith)
    ∙ read_minutes total (d.secs % 3600 / 60) (seconds_of d)
    ∙ read_parts-two_digits total' (d.secs % 3600 % 60) (b's' ∷ [])
    ∙ ap some (omega arith)

occurs-two_digits : (c n : ℕ) → b'9' < c → occurs c (two_digits n) ≡ false
occurs-two_digits c n lt = occurs-all_digits c (two_digits n) (two_digits-all_digits n) lt

-- a part that is not left out has its unit, and no other letter
occurs-part : (c n unit : ℕ) → b'9' < c → occurs c (part n unit) ≡ (not (natb n 0) && natb unit c)
occurs-part c n unit lt = elim (Bool-cases (natb n 0)) [
  | inl e ↦ rw e refl
  | inr e ↦
      rw (e, occurs-append c (two_digits n) (unit ∷ []), occurs-two_digits c n lt) (ground arith)
]

occurs-hms_string :
    (c : ℕ) (d : Duration)
    → 1 ≤ d.secs
    → b'9' < c
    → occurs c (hms_string d) ≡ (occurs c (hours_of d) || (occurs c (minutes_of d) || natb b's' c))
occurs-hms_string c d h lt =
    rw
      (
        hms_string_lem d h,
        occurs-append c (hours_of d) (minutes_of d ++ seconds_of d),
        occurs-append c (minutes_of d) (seconds_of d),
        occurs-append c (two_digits (d.secs % 3600 % 60)) (b's' ∷ []),
        occurs-two_digits c (d.secs % 3600 % 60) lt,
      )
      (ground arith)

-- The text of a duration of a second or more is read back as its whole seconds, and the hours and
-- the minutes have a part in it exactly where they are not zero: an `H` stands in the text if and
-- only if there is a full hour, an `m` if and only if there is a full minute past the hours.
pub read_hms-hms_string :
    (d : Duration)
    → 1 ≤ d.secs
    → (read_hms (hms_string d) ≡ some d.secs)
      × (occurs b'H' (hms_string d) ≡ not (natb (d.secs / 3600) 0))
      × (occurs b'm' (hms_string d) ≡ not (natb (d.secs % 3600 / 60) 0))
read_hms-hms_string d h = (
  read_hms_lem d h,
  rw
      (
        occurs-hms_string b'H' d h (omega arith),
        occurs-part b'H' (d.secs / 3600) b'H' (omega arith),
        occurs-part b'H' (d.secs % 3600 / 60) b'm' (omega arith),
      )
      (ground arith),
  rw
      (
        occurs-hms_string b'm' d h (omega arith),
        occurs-part b'm' (d.secs / 3600) b'H' (omega arith),
        occurs-part b'm' (d.secs % 3600 / 60) b'm' (omega arith),
      )
      (ground arith),
)

abbrev length_part : ℕ → ℕ
length_part n = if natb n 0 then 0 else 3

length-part : (n unit : ℕ) → n < 100 → length (part n unit) ≡ length_part n
length-part n unit h = ground (arith, length-append (two_digits n) (unit ∷ []), length-two_digits n)

-- The text of a duration from a second up to a hundred hours has three characters for its seconds,
-- three more if its hours are not zero, and three more if its minutes past the hours are not zero.
pub length-hms_string :
    (d : Duration)
    → 1 ≤ d.secs
    → d.secs < 360_000
    → length (hms_string d)
      ≡ (if natb (d.secs / 3600) 0 then 0 else 3)
        + (if natb (d.secs % 3600 / 60) 0 then 0 else 3)
        + 3
length-hms_string d h hi =
    let a = length-append (hours_of d) (minutes_of d ++ seconds_of d) in
    let b = length-append (minutes_of d) (seconds_of d) in
    let c = length-append (two_digits (d.secs % 3600 % 60)) (b's' ∷ []) in
    let s = length-two_digits (d.secs % 3600 % 60) (omega arith) in
    let u = length-part (d.secs / 3600) b'H' (omega arith) in
    let v = length-part (d.secs % 3600 / 60) b'm' (omega arith) in
    rw (hms_string_lem d h, a, b, c, s, u, v) (omega arith)
