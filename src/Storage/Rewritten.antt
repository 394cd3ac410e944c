-- ===== src/Storage/Rewritten.antt =====
-- The store after `update_all_fn` on one tree: every state of the tree is rewritten, the rest stays.
use rex_sm.Base.{
  ℕ, ◌≡◌, refl, sym, ap, ◌∙◌, inl, inr, Bool, true, false, Option, none, some, Result, ok, ◌>>=◌,
  if◌then◌else◌, natb, Bool-cases, Option-cases, get_elem?, arith,
}
use mathlib.Core.Option
use rex_sm.Node.Tree.{Node, id, get_state, get_parent_id}
use rex_sm.Node.Spec.{has}
use rex_sm.Node.Visit.{
  map_states, map_states-IsKeyed, has-map_states, update_all_fn_lem, update_all_fn-states,
}
use rex_sm.Storage.Store.{StateStore}
use rex_sm.Storage.Linked.{
  IsLinked, peek_state, peek_parent, peek_at, with_cell, root_at, cell-IsKeyed, with_cell-IsLinked,
  peek_with_cell, peek_old,
}

-- whether an id with this address is in the tree at `a`
abbrev pub is_at : ℕ → Option ℕ → Bool
is_at a none = false
is_at a (some b) = natb a b

module _ {ℓ} {Key S : Type ℓ} (dec : Discrete Key) (f : S → S) where
  abbrev pub rewritten : Result (Option S) → Result (Option S)
  rewritten r = do o ← r; ok (Option.map f o)

  pub record Rewritten (a : ℕ) (s s' : StateStore Key S) : Type ℓ where
    pub store_linked : IsLinked dec s'
    pub same_trees : (j : Key) → s'.trees j ≡ s.trees j
    pub states :
        (j : Key)
        → peek_state dec s' j
          ≡ (if is_at a (s.trees j) then rewritten (peek_state dec s j) else peek_state dec s j)
    pub parents : (j : Key) → peek_parent dec s' j ≡ peek_parent dec s j

  module _ (new_state : Key → S) (s : StateStore Key S) (a : ℕ) (n : Node Key S)
      (v : IsLinked dec s) (cell : get_elem? s.heap a ≡ some n) where
    at : s.trees (id n) ≡ some a
    at = root_at dec s a n v cell

    read_state : (y : Key) → get_state dec (map_states f n) y ≡ rewritten (get_state dec n y)
    read_state y =
        let (r, k, h, p, st) =
          update_all_fn-states f dec new_state n y (cell-IsKeyed dec s a n v cell) in
        ap (λ u. get_state dec u.0 y) (sym (update_all_fn_lem f new_state n)) ∙ st

    read_parent : (y : Key) → get_parent_id dec (map_states f n) y ≡ get_parent_id dec n y
    read_parent y =
        let (r, k, h, p, st) =
          update_all_fn-states f dec new_state n y (cell-IsKeyed dec s a n v cell) in
        ap (λ u. get_parent_id dec u.0 y) (sym (update_all_fn_lem f new_state n)) ∙ p

    pub with_cell-Rewritten : Rewritten a s (with_cell dec s a (map_states f n))
    unfolding peek_state peek_parent
    with_cell-Rewritten = record {
      store_linked =
          with_cell-IsLinked dec s (id n) a n (map_states f n) v at cell
            (map_states-IsKeyed f dec n (cell-IsKeyed dec s a n v cell))
            (λ y. has-map_states f dec y n);
      same_trees = λ j. refl;
      states = λ j. states j (s.trees j);
      parents = λ j. parents j (s.trees j);
    }
      where
        states :
            (j : Key) (o : Option ℕ)
            → peek_at dec (λ m. get_state dec m j) (with_cell dec s a (map_states f n)) o ≡ (
                if is_at a o
                then rewritten (peek_at dec (λ m. get_state dec m j) s o)
                else peek_at dec (λ m. get_state dec m j) s o)
        states j none = refl
        states j (some b) =
            let g = λ (m : Node Key S). get_state dec m j in
            peek_with_cell dec s (id n) a n (map_states f n) v at cell g b
            ∙ elim (Bool-cases (natb a b)) [
              | inr c ↦ rw c
              | inl c ↦ rw c (
                  read_state j
                  ∙ ap rewritten (sym (peek_old dec s (id n) a n (map_states f n) v at cell g b c)))
            ]

        parents :
            (j : Key) (o : Option ℕ)
            → peek_at dec (λ m. get_parent_id dec m j) (with_cell dec s a (map_states f n)) o
              ≡ peek_at dec (λ m. get_parent_id dec m j) s o
        parents j none = refl
        parents j (some b) =
            let g = λ (m : Node Key S). get_parent_id dec m j in
            peek_with_cell dec s (id n) a n (map_states f n) v at cell g b
            ∙ elim (Bool-cases (natb a b)) [
              | inr c ↦ rw c
              | inl c ↦
                  rw c (
                    read_parent j
                    ∙ sym (peek_old dec s (id n) a n (map_states f n) v at cell g b c))
            ]

module _ {ℓ} {Key S : Type ℓ} (dec : Discrete Key) (s : StateStore Key S) (a : ℕ) (n : Node Key S)
    (v : IsLinked dec s) (cell : get_elem? s.heap a ≡ some n) (j : Key) where
  -- An id is in the tree in a cell of a linked store where the store says so.
  pub has-is_at : has dec j n ≡ is_at a (s.trees j)
  has-is_at = elim (Option-cases (s.trees j)) [
    | inl e ↦ rw e (elim (Bool-cases (has dec j n)) [
      | inl h ↦ cc (sym e ∙ v.indexed a n j cell h)
      | inr h ↦ h
    ])
    | inr (b, e) ↦ rw e (elim (Bool-cases (has dec j n)) [
      | inl h ↦
          let both : some b ≡ some a = sym e ∙ v.indexed a n j cell h in ground (arith, h, both)
      | inr h ↦
          h
          ∙ sym (elim (Bool-cases (natb a b)) [
            | inr c ↦ c
            | inl c ↦
                let held = v.linked j b e in
                let ab : a ≡ b = ground arith in
                let both : some n ≡ some held.tree =
                  sym cell ∙ ap (get_elem? s.heap) ab ∙ held.cell in
                let same : n ≡ held.tree = ground (arith, both) in
                let yes : has dec j n ≡ true = rw same held.holds in cc (sym yes ∙ h)
          ])
    ])
  ]
