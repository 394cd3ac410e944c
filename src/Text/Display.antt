-- ===== src/Text/Display.antt =====
-- src/lib.rs and src/timeout.rs: `Display` of `StateId` and of `Operation`. The `Debug` of a kind and
-- the base-58 text of a uuid are parameters.
use rex_sm.Base.{
  ℕ, ◌<◌, ◌≡◌, ◌↔◌, refl, ap, sym, ◌∙◌, inl, inr, true, false, [], ◌∷◌, ◌++◌, length, if◌then◌else◌,
  eqb_sound, Bool-cases, arith,
}
use rex_sm.Kind.{Rex, StateId, is_nil}
use rex_sm.Timeout.Request.{Operation, cancel, set, retain}
use rex_sm.Text.Decimal.{Text, occurs}

abbrev timeout_dot : Text
timeout_dot = b't' ∷ b'i' ∷ b'm' ∷ b'e' ∷ b'o' ∷ b'u' ∷ b't' ∷ b':' ∷ b':' ∷ []

unfoldable pub operation_name {ℓ} : {T : Type ℓ} → Operation T → Text
operation_name cancel = timeout_dot ++ (b'C' ∷ b'a' ∷ b'n' ∷ b'c' ∷ b'e' ∷ b'l' ∷ [])
operation_name (set instant) = timeout_dot ++ (b'S' ∷ b'e' ∷ b't' ∷ [])
operation_name (retain item instant) = timeout_dot ++ (b'R' ∷ b'e' ∷ b't' ∷ b'a' ∷ b'i' ∷ b'n' ∷ [])

-- What stands before and after the first of a character is told from the whole.
split_at :
    (c : ℕ) (xs ys us vs : Text)
    → occurs c xs ≡ false
    → occurs c ys ≡ false
    → xs ++ (c ∷ us) ≡ ys ++ (c ∷ vs)
    → (xs ≡ ys) × (us ≡ vs)
split_at c [] [] us vs h k e = (refl, ground (arith, e))
split_at c [] (y ∷ ys) us vs h k e = absurd (ground (arith, e))
split_at c (x ∷ xs) [] us vs h k e = absurd (ground (arith, e))
split_at c (x ∷ xs) (y ∷ ys) us vs h k e =
    let (same, rest) =
      split_at c xs ys us vs (ground (arith, h)) (ground (arith, k)) (ground (arith, e)) in
    (ground (arith, e, same), rest)

snoc-injective : (c : ℕ) (xs ys : Text) → xs ++ (c ∷ []) ≡ ys ++ (c ∷ []) → xs ≡ ys
snoc-injective c [] [] e = refl
snoc-injective c [] (y ∷ []) e = absurd (ground (arith, e))
snoc-injective c [] (y ∷ z ∷ ys) e = absurd (ground (arith, e))
snoc-injective c (x ∷ []) [] e = absurd (ground (arith, e))
snoc-injective c (x ∷ z ∷ xs) [] e = absurd (ground (arith, e))
snoc-injective c (x ∷ xs) (y ∷ ys) e =
    let same = snoc-injective c xs ys (ground (arith, e)) in ground (arith, e, same)

module _ (R : Rex) (debug : R.Kind → Text) (bs58 : R.Uuid → Text) where
  unfoldable pub uuid_text : StateId R.Kind R.Uuid → Text
  uuid_text i = if is_nil R i then b'N' ∷ b'I' ∷ b'L' ∷ [] else bs58 i.uuid

  unfoldable pub display : StateId R.Kind R.Uuid → Text
  unfolding uuid_text
  display i = debug i.kind ++ (b'<' ∷ (uuid_text i ++ (b'>' ∷ [])))

  module _ (debug-injective : (j k : R.Kind) → debug j ≡ debug k → j ≡ k)
      (plain : (k : R.Kind) → occurs b'<' (debug k) ≡ false)
      (bs58-injective : (u v : R.Uuid) → bs58 u ≡ bs58 v → u ≡ v)
      (long : (u : R.Uuid) → 3 < length (bs58 u)) where
    abbrev pub nil_text : Text
    nil_text = b'N' ∷ b'I' ∷ b'L' ∷ []

    at_nil : (i : StateId R.Kind R.Uuid) → is_nil R i ≡ true → uuid_text i ≡ nil_text
    unfolding uuid_text
    at_nil i e = rw e

    away : (i : StateId R.Kind R.Uuid) → is_nil R i ≡ false → uuid_text i ≡ bs58 i.uuid
    unfolding uuid_text
    away i e = rw e

    not_nil : (u : R.Uuid) → bs58 u ≡ nil_text → 3 < 3
    not_nil u e = rw (← ap length e) (long u)

    uuid_text-injective :
        (i j : StateId R.Kind R.Uuid) → uuid_text i ≡ uuid_text j → i.uuid ≡ j.uuid
    unfolding is_nil
    uuid_text-injective i j e = elim (Bool-cases (is_nil R i)) [
      | inl m ↦ elim (Bool-cases (is_nil R j)) [
        | inl n ↦
            eqb_sound R.uuid_dec i.uuid R.nil_uuid m
            ∙ sym (eqb_sound R.uuid_dec j.uuid R.nil_uuid n)
        | inr n ↦
            let h = not_nil j.uuid (sym (away j n) ∙ sym e ∙ at_nil i m) in
            absurd (omega (arith, h))
      ]
      | inr m ↦ elim (Bool-cases (is_nil R j)) [
        | inl n ↦
            let h = not_nil i.uuid (sym (away i m) ∙ e ∙ at_nil j n) in absurd (omega (arith, h))
        | inr n ↦ bs58-injective i.uuid j.uuid (sym (away i m) ∙ e ∙ away j n)
      ]
    ]

    display_same : (i j : StateId R.Kind R.Uuid) → display i ≡ display j → i ≡ j
    unfolding display
    display_same i j e =
        let (kinds, rest) =
          split_at b'<' (debug i.kind) (debug j.kind) _ _ (plain i.kind) (plain j.kind) e in
        let k : i.kind ≡ j.kind = debug-injective i.kind j.kind kinds in
        let u : i.uuid ≡ j.uuid =
          uuid_text-injective i j (snoc-injective b'>' (uuid_text i) (uuid_text j) rest) in
        λ t. record { kind = k t; uuid = u t }

    nil_display :
        (i : StateId R.Kind R.Uuid)
        → (is_nil R i ≡ true) ↔ (display i ≡ debug i.kind ++ (b'<' ∷ (nil_text ++ (b'>' ∷ []))))
    unfolding display
    nil_display i = (λ m. rw (at_nil i m) refl, back)
      where
        back : display i ≡ debug i.kind ++ (b'<' ∷ (nil_text ++ (b'>' ∷ []))) → is_nil R i ≡ true
        back e = elim (Bool-cases (is_nil R i)) [
          | inl m ↦ m
          | inr m ↦
              let (kinds, rest) = split_at b'<' _ _ _ _ (plain i.kind) (plain i.kind) e in
              let same = snoc-injective b'>' (uuid_text i) nil_text rest in
              let h = not_nil i.uuid (sym (away i m) ∙ same) in absurd (omega (arith, h))
        ]

    -- Two ids that print alike are the same, and an id prints its uuid as `NIL` exactly where it is
    -- nil. The conditions are on the texts of other packages: kinds print differently and without
    -- `<`, and the base-58 text tells uuids apart and has more than three characters.
    pub display-injective :
        (i j : StateId R.Kind R.Uuid)
        → display i ≡ display j
        → (i ≡ j)
          × ((is_nil R i ≡ true) ↔ (display i ≡ debug i.kind ++ (b'<' ∷ (nil_text ++ (b'>' ∷ [])))))
    display-injective i j e = (display_same i j e, nil_display i)
