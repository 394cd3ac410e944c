-- ===== src/Tests/Texts.antt =====
-- Witnesses for the text of durations: one hour, two minutes and five seconds; and an hour alone.
use rex_sm.Base.{
  ℕ, zero, suc, ◌+◌, ◌≡◌, ◌↔◌, refl, ap, sym, ◌∙◌, true, false, some, [], ◌∷◌, ◌++◌, length, arith,
}
use rex_sm.Text.Decimal.{Text, two_digits, decimal, occurs}
use rex_sm.Kind.{is_nil}
use rex_sm.Text.Display.{display, display-injective}
use rex_sm.Tests.Worlds.{numbers, child_id}
use rex_sm.Text.Hms.{
  Duration, hms_string, is_zero, subsec_millis, read_hms, read_hms-hms_string, length-hms_string,
}

abbrev a_while : Duration
a_while = record { secs = 3725; nanos = 250_000_000 }

read_hms-hms_string_example :
    (read_hms (hms_string a_while) ≡ some 3725)
    × (occurs b'H' (hms_string a_while) ≡ true)
    × (occurs b'm' (hms_string a_while) ≡ true)
read_hms-hms_string_example = read_hms-hms_string a_while (omega arith)

length-hms_string_example : length (hms_string a_while) ≡ 9
length-hms_string_example = length-hms_string a_while (omega arith) (omega arith)

-- zero parts are left out
hour :
    hms_string (record { secs = 3600; nanos = 5_000_000 })
    ≡ b'0' ∷ b'1' ∷ b'H' ∷ b'0' ∷ b'0' ∷ b's' ∷ []
unfolding hms_string two_digits decimal is_zero
hour = refl

-- less than a millisecond is told from zero
short : hms_string (record { secs = 0; nanos = 5_000 }) ≡ b'0' ∷ b'm' ∷ b's' ∷ []
unfolding hms_string decimal is_zero subsec_millis
short = refl

-- as many of a character as the number says
abbrev tally : ℕ → ℕ → Text
tally c zero = []
tally c (suc n) = c ∷ tally c n

length-tally : (c n : ℕ) → length (tally c n) ≡ n
length-tally c zero = refl
length-tally c (suc n) = ap suc (length-tally c n)

tally-injective : (c m n : ℕ) → tally c m ≡ tally c n → m ≡ n
tally-injective c m n e = sym (length-tally c m) ∙ ap length e ∙ length-tally c n

occurs-tally : (n : ℕ) → occurs b'<' (tally b'k' n) ≡ false
occurs-tally zero = refl
occurs-tally (suc n) = ground (arith, occurs-tally n)

-- four letters and a tally
abbrev uuid_letters : ℕ → Text
uuid_letters u = tally b'u' (u + 4)

letters_injective : (u v : ℕ) → uuid_letters u ≡ uuid_letters v → u ≡ v
letters_injective u v e = omega (arith, tally-injective b'u' (u + 4) (v + 4) e)

display-injective_example :
    (child_id ≡ child_id)
    × ((is_nil numbers child_id ≡ true) ↔ (
        display numbers (tally b'k') uuid_letters child_id
        ≡ tally b'k' child_id.kind ++ (b'<' ∷ (b'N' ∷ b'I' ∷ b'L' ∷ b'>' ∷ []))))
display-injective_example =
    display-injective numbers (tally b'k') uuid_letters (tally-injective b'k') occurs-tally
      letters_injective (λ u. omega (arith, length-tally b'u' (u + 4))) child_id child_id refl
