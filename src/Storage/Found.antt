-- ===== src/Storage/Found.antt =====
-- A linked store against a search of all trees: what an id leads to is what a depth-first search
-- through every tree of the heap finds first.
use mathlib.Core.Option
use rex_sm.Base.{
  ℕ, zero, suc, ◌≡◌, refl, sym, ◌∙◌, inl, inr, false, Option, none, some, List, [], ◌∷◌, ok,
  Bool-cases, Option-cases, get_elem?, arith,
}
use rex_sm.Node.Tree.{Node, state}
use rex_sm.Node.Spec.{has, find_node, parent_in, or_else, or_else-none}
use rex_sm.Node.Pick.{find_node_absent, parent_in_absent}
use rex_sm.Node.Read.{get_state-find_node, get_parent_id-parent_in}
use rex_sm.Storage.Store.{StateStore}
use rex_sm.Storage.Linked.{IsLinked, peek_state, peek_parent}

-- the first answer along a list
abbrev pub first_of {ℓ} : {A B : Type ℓ} → (A → Option B) → List A → Option B
first_of f [] = none
first_of f (x ∷ xs) = or_else (f x) (first_of f xs)

first_of-none {ℓ} :
    {A B : Type ℓ} (f : A → Option B) (xs : List A)
    → ((b : ℕ) (x : A) → get_elem? xs b ≡ some x → f x ≡ none)
    → first_of f xs ≡ none
first_of-none f [] h = refl
first_of-none f (x ∷ xs) h = rw (h zero x refl) (first_of-none f xs λ b y e. h (suc b) y e)

first_of-at {ℓ} :
    {A B : Type ℓ} (f : A → Option B) (xs : List A) (a : ℕ) (x : A)
    → get_elem? xs a ≡ some x
    → ((b : ℕ) (y : A) → get_elem? xs b ≡ some y → (b ≡ a → ⊥) → f y ≡ none)
    → first_of f xs ≡ f x
first_of-at f [] a x e h = cc
first_of-at f (y ∷ xs) zero x e h =
    rw
      (
        first_of-none f xs (λ b z d. h (suc b) z d (λ (p : suc b ≡ zero). omega (arith, p))),
        or_else-none (f y),
      )
      (ground (arith, e))
first_of-at f (y ∷ xs) (suc a) x e h = rw (h zero y refl (λ (p : zero ≡ suc a). omega (arith, p))) (
    first_of-at f xs a x e λ b z d ne. h (suc b) z d (λ (p : suc b ≡ suc a). ne (omega (arith, p))))

module _ {ℓ} {Key S : Type ℓ} (dec : Discrete Key) (s : StateStore Key S) (linked : IsLinked dec s)
    (i : Key) where
  -- an answer that trees without the id do not give
  search_at :
      {B : Type ℓ} (f : Node Key S → Option B) (a : ℕ) (n : Node Key S)
      → ((m : Node Key S) → has dec i m ≡ false → f m ≡ none)
      → s.trees i ≡ some a
      → get_elem? s.heap a ≡ some n
      → first_of f s.heap ≡ f n
  search_at f a n absent at cell = first_of-at f s.heap a n cell λ b m e ne.
      elim (Bool-cases (has dec i m)) [
        | inr h ↦ absent m h
        | inl h ↦ let at' = linked.indexed b m i e h in absurd (ne (ground (arith, at, at')))
      ]

  search_none :
      {B : Type ℓ} (f : Node Key S → Option B)
      → ((m : Node Key S) → has dec i m ≡ false → f m ≡ none)
      → s.trees i ≡ none
      → first_of f s.heap ≡ none
  search_none f absent gone = first_of-none f s.heap λ b m e. elim (Bool-cases (has dec i m)) [
    | inr h ↦ absent m h
    | inl h ↦ let at = linked.indexed b m i e h in cc (sym gone ∙ at)
  ]

  pub peek_state-first_of :
      peek_state dec s i ≡ ok (Option.map state (first_of (find_node dec i) s.heap))
  unfolding peek_state
  peek_state-first_of = elim (Option-cases (s.trees i)) [
    | inl e ↦ rw (e, search_none (find_node dec i) (find_node_absent dec i) e)
    | inr (a, e) ↦
        let h = linked.linked i a e in
        rw (e, h.cell, search_at (find_node dec i) a h.tree (find_node_absent dec i) e h.cell)
          (get_state-find_node dec i h.tree h.keyed)
  ]

  pub peek_parent-first_of : peek_parent dec s i ≡ ok (first_of (parent_in dec i) s.heap)
  unfolding peek_parent
  peek_parent-first_of = elim (Option-cases (s.trees i)) [
    | inl e ↦ rw (e, search_none (parent_in dec i) (parent_in_absent dec i) e)
    | inr (a, e) ↦
        let h = linked.linked i a e in
        rw (e, h.cell, search_at (parent_in dec i) a h.tree (parent_in_absent dec i) e h.cell)
          (get_parent_id-parent_in dec i h.tree h.keyed)
  ]
