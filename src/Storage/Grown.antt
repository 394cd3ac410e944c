-- ===== src/Storage/Grown.antt =====
-- A store with one more id: in a tree of its own, or as a new leaf of a tree.
use rex_sm.Base.{
  ℕ, ◌≡◌, refl, ap, sym, ◌∙◌, inl, inr, ◌⊎◌, Bool, true, false, ◌||◌, Option, none, some, List,
  Result, ok, if◌then◌else◌, eqb, eqb_self, eqb_sound, natb, Bool-cases, Option-cases, get_elem?,
  set, push, length, get_elem?-set, get_elem?-push, get_elem?-length, arith,
}
use rex_sm.Node.Tree.{Node, new, get_state, get_parent_id}
use rex_sm.Node.Spec.{has, IsKeyed}
use rex_sm.Node.Read.{has-new, new-IsKeyed, get_state-new, get_parent_id-new}
use rex_sm.Node.LeafReads.{Inserted}
use rex_sm.Storage.Store.{StateStore}
use rex_sm.Storage.Linked.{Holds, IsLinked, peek_cell, peek_at, peek_state, peek_parent}

module _ {ℓ} {Key S : Type ℓ} (dec : Discrete Key) where
  -- `s'` is `s` with `x` in it, in the state `v` and below `p`; nothing else is changed.
  pub record Added (x : Key) (p : Option Key) (v : S) (s s' : StateStore Key S) : Type ℓ where
    pub store_linked : IsLinked dec s'
    pub states :
        (j : Key) → peek_state dec s' j ≡ (if eqb dec x j then ok (some v) else peek_state dec s j)
    pub parents :
        (j : Key) → peek_parent dec s' j ≡ (if eqb dec x j then ok p else peek_parent dec s j)

  unfoldable pub has_in : Key → Option (Node Key S) → Bool
  has_in y none = false
  has_in y (some n) = has dec y n

  abbrev pub grown : StateStore Key S → Key → ℕ → List (Node Key S) → StateStore Key S
  grown s x a heap = record { trees = λ j. if eqb dec x j then some a else s.trees j; heap = heap }

  module _ (s : StateStore Key S) (x : Key) (p : Option Key) (v : S) (a : ℕ) (n : Node Key S)
      (heap : List (Node Key S)) (linked : IsLinked dec s) (fresh : s.trees x ≡ none)
      (cells : (b : ℕ) → get_elem? heap b ≡ (if natb a b then some n else get_elem? s.heap b))
      (keyed : IsKeyed dec n)
      (ids : (y : Key) → has dec y n ≡ (eqb dec x y || has_in y (get_elem? s.heap a))) where
    same_at :
        (b : ℕ) (m : Node Key S)
        → natb a b ≡ true
        → get_elem? s.heap b ≡ some m
        → get_elem? s.heap a ≡ some m
    same_at b m e h = let ab : a ≡ b = ground arith in ap (get_elem? s.heap) ab ∙ h

    held :
        (i : Key) (b : ℕ) → Holds dec s i b → eqb dec x i ≡ false → Holds dec (grown s x a heap) i b
    unfolding has_in
    held i b h d = elim (Bool-cases (natb a b)) [
      | inr c ↦ record {
        tree = h.tree;
        cell = cells b ∙ rw c h.cell;
        keyed = h.keyed;
        holds = h.holds;
      }
      | inl c ↦ record {
        tree = n;
        cell = cells b ∙ rw c;
        keyed = keyed;
        holds = ids i ∙ rw (d, same_at b h.tree c h.cell) h.holds;
      }
    ]

    linked_at :
        (i : Key) (b : ℕ)
        → (if eqb dec x i then some a else s.trees i) ≡ some b
        → Holds dec (grown s x a heap) i b
    linked_at i b e = elim (Bool-cases (eqb dec x i)) [
      | inr d ↦ held i b (linked.linked i b (rw d at e)) d
      | inl d ↦
          let ab : a ≡ b = ground arith in
          record {
            tree = n;
            cell = cells b ∙ ground (arith, ab);
            keyed = keyed;
            holds = ids i ∙ rw d;
          }
    ]

    older :
        (i : Key)
        → has_in i (get_elem? s.heap a) ≡ true
        → (get_elem? s.heap a ≡ none) ⊎ ((m : Node Key S) × (get_elem? s.heap a ≡ some m))
        → s.trees i ≡ some a
    unfolding has_in
    older i h (inl e) = cc (ap (has_in i) (sym e) ∙ h)
    older i h (inr (m, e)) = linked.indexed a m i e (ap (has_in i) (sym e) ∙ h)

    indexed_at :
        (b : ℕ) (m : Node Key S) (i : Key)
        → get_elem? heap b ≡ some m
        → has dec i m ≡ true
        → (if eqb dec x i then some a else s.trees i) ≡ some b
    unfolding has_in
    indexed_at b m i e h = elim (Bool-cases (natb a b)) [
      | inr c ↦
          let e' : get_elem? s.heap b ≡ some m = sym (cells b ∙ rw c) ∙ e in
          let old = linked.indexed b m i e' h in
          elim (Bool-cases (eqb dec x i)) [
            | inr d ↦ rw d old
            | inl d ↦ cc (sym fresh ∙ ap s.trees (eqb_sound dec x i d) ∙ old)
          ]
      | inl c ↦
          let ab : a ≡ b = ground arith in
          let is_m : some n ≡ some m = sym (cells b ∙ rw c) ∙ e in
          let in_n : has dec i n ≡ true = ground (arith, is_m, h) in
          elim (Bool-cases (eqb dec x i)) [
            | inl d ↦ rw d (ap some ab)
            | inr d ↦ rw d (
                older i (sym (ids i ∙ rw d) ∙ in_n) (Option-cases (get_elem? s.heap a))
                ∙ ap some ab)
          ]
    ]

    pub grown-IsLinked : IsLinked dec (grown s x a heap)
    grown-IsLinked = record { linked = linked_at; indexed = indexed_at }

    -- What the tree in the cell reads, and what the store read there before.
    module _ {κ} {A : Type κ} (read : Key → Node Key S → Result (Option A)) (o : Option A)
        (at_x : read x n ≡ ok o)
        (others : (j : Key) (m : Node Key S)
          → get_elem? s.heap a ≡ some m
          → eqb dec x j ≡ false
          → read j n ≡ read j m) where
      peek_cell_grown :
          (j : Key) (b : ℕ)
          → s.trees j ≡ some b
          → eqb dec x j ≡ false
          → peek_cell dec (read j) (get_elem? heap b) ≡ peek_cell dec (read j) (get_elem? s.heap b)
      unfolding peek_cell
      peek_cell_grown j b e d =
          ap (peek_cell dec (read j)) (cells b) ∙ elim (Bool-cases (natb a b)) [
            | inr c ↦ rw c
            | inl c ↦
                let h = linked.linked j b e in
                rw (c, h.cell) (others j h.tree (same_at b h.tree c h.cell) d)
          ]

      peek_other :
          (j : Key) (t : Option ℕ)
          → s.trees j ≡ t
          → eqb dec x j ≡ false
          → peek_at dec (read j) (grown s x a heap) t ≡ peek_at dec (read j) s t
      unfolding peek_at
      peek_other j none e d = refl
      peek_other j (some b) e d = peek_cell_grown j b e d

      peek_x :
          (j : Key) → eqb dec x j ≡ true → peek_at dec (read j) (grown s x a heap) (some a) ≡ ok o
      unfolding peek_at
      peek_x j d =
          let aa : natb a a ≡ true = ground arith in rw (cells a, aa, ← eqb_sound dec x j d) at_x

      pub peek_grown :
          (j : Key)
          → peek_at dec (read j) (grown s x a heap) ((grown s x a heap).trees j)
            ≡ (if eqb dec x j then ok o else peek_at dec (read j) s (s.trees j))
      peek_grown j = elim (Bool-cases (eqb dec x j)) [
        | inl d ↦ rw d (peek_x j d)
        | inr d ↦ rw d (peek_other j (s.trees j) refl d)
      ]

module _ {ℓ} {Key S : Type ℓ} (dec : Discrete Key) (new_state : Key → S) (s : StateStore Key S)
    (x : Key) (linked : IsLinked dec s) (fresh : s.trees x ≡ none) where
  -- A new tree in a new cell adds its id, with no parent.
  pub alloc-Added :
      Added dec x none
        (new_state x)
        s
        (grown dec s x (length s.heap) (push s.heap (new new_state x)))
  unfolding peek_state peek_parent has_in
  alloc-Added = record {
    store_linked = grown-IsLinked dec s x none (new_state x) a n heap linked fresh cells keyed ids;
    states =
        peek_grown dec s x none (new_state x) a n heap linked fresh cells keyed ids
          (λ j m. get_state dec m j) (some (new_state x)) at_x none_there;
    parents =
        peek_grown dec s x none (new_state x) a n heap linked fresh cells keyed ids
          (λ j m. get_parent_id dec m j) none root_x none_there';
  }
    where
      a : ℕ
      a = length s.heap

      n : Node Key S
      n = new new_state x

      heap : List (Node Key S)
      heap = push s.heap n

      cells : (b : ℕ) → get_elem? heap b ≡ (if natb a b then some n else get_elem? s.heap b)
      cells b = get_elem?-push s.heap n b

      keyed : IsKeyed dec n
      keyed = new-IsKeyed dec new_state x

      ids : (y : Key) → has dec y n ≡ (eqb dec x y || has_in dec y (get_elem? s.heap a))
      ids y = rw (get_elem?-length s.heap) (has-new dec new_state x y)

      at_x : get_state dec n x ≡ ok (some (new_state x))
      at_x = get_state-new dec new_state x

      root_x : get_parent_id dec n x ≡ ok none
      root_x = get_parent_id-new dec new_state x

      none_there :
          (j : Key) (m : Node Key S)
          → get_elem? s.heap a ≡ some m
          → eqb dec x j ≡ false
          → get_state dec n j ≡ get_state dec m j
      none_there j m e d = cc (sym (get_elem?-length s.heap) ∙ e)

      none_there' :
          (j : Key) (m : Node Key S)
          → get_elem? s.heap a ≡ some m
          → eqb dec x j ≡ false
          → get_parent_id dec n j ≡ get_parent_id dec m j
      none_there' j m e d = cc (sym (get_elem?-length s.heap) ∙ e)

  module _ (q : Key) (a : ℕ) (n n' : Node Key S) (cell : get_elem? s.heap a ≡ some n)
      (ins : Inserted dec new_state q x n n') where
    leaf_cells :
        (b : ℕ) → get_elem? (set s.heap a n') b ≡ (if natb a b then some n' else get_elem? s.heap b)
    leaf_cells b = get_elem?-set s.heap a b n n' cell

    leaf_ids : (y : Key) → has dec y n' ≡ (eqb dec x y || has_in dec y (get_elem? s.heap a))
    unfolding has_in
    leaf_ids y = rw cell (ins.ids y)

    only : (m : Node Key S) → get_elem? s.heap a ≡ some m → n ≡ m
    only m e = let both : some n ≡ some m = sym cell ∙ e in ground (arith, both)

    -- A new leaf of a tree of the store adds its id, below its parent.
    pub leaf-Added : Added dec x (some q) (new_state x) s (grown dec s x a (set s.heap a n'))
    unfolding peek_state peek_parent
    leaf-Added = record {
      store_linked =
          grown-IsLinked dec s x (some q) (new_state x) a n' heap linked fresh leaf_cells ins.keyed
            leaf_ids;
      states =
          peek_grown dec s x (some q) (new_state x) a n' heap linked fresh leaf_cells ins.keyed
            leaf_ids (λ j m. get_state dec m j) (some (new_state x))
            (ins.states x ∙ rw (eqb_self dec x))
            (λ j m e d. ins.states j ∙ rw d (ap (λ t. get_state dec t j) (only m e)));
      parents =
          peek_grown dec s x (some q) (new_state x) a n' heap linked fresh leaf_cells ins.keyed
            leaf_ids (λ j m. get_parent_id dec m j) (some q) (ins.parents x ∙ rw (eqb_self dec x))
            (λ j m e d. ins.parents j ∙ rw d (ap (λ t. get_parent_id dec t j) (only m e)));
    }
      where
        heap : List (Node Key S)
        heap = set s.heap a n'
