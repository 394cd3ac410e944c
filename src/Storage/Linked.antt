-- ===== src/Storage/Linked.antt =====
-- The invariant of the store: an id points at the one tree that holds it, and every id of a tree
-- does; and the three ways in which the manager changes the store.
use rex_sm.Base.{
  ℕ, ◌≡◌, refl, ap, sym, ◌∙◌, inl, inr, ◌⊎◌, true, false, Option, none, some, Result, ok, panic,
  if◌then◌else◌, eqb, eqb_self, eqb_sound, natb, Bool-cases, get_elem?, set, get_elem?-set, arith,
}
use rex_sm.Node.Tree.{Node, node, id, get_state, get_parent_id}
use rex_sm.Node.Spec.{has, IsKeyed}
use rex_sm.Node.Frame.{Updated}
use rex_sm.Storage.Store.{StateStore}

module _ {ℓ} {Key S : Type ℓ} (dec : Discrete Key) where
  -- the cell at `a` holds a keyed tree with the id
  pub record Holds (s : StateStore Key S) (i : Key) (a : ℕ) : Type ℓ where
    pub tree : Node Key S
    pub cell : get_elem? s.heap a ≡ some tree
    pub keyed : IsKeyed dec tree
    pub holds : has dec i tree ≡ true

  pub record IsLinked (s : StateStore Key S) : Type ℓ where
    pub linked : (i : Key) (a : ℕ) → s.trees i ≡ some a → Holds s i a
    pub indexed :
        (a : ℕ) (n : Node Key S) (i : Key)
        → get_elem? s.heap a ≡ some n
        → has dec i n ≡ true
        → s.trees i ≡ some a

  -- The state and the parent of an id, read as the context's methods do.
  unfoldable pub peek_cell {κ} :
      {A : Type κ} → (Node Key S → Result (Option A)) → Option (Node Key S) → Result (Option A)
  peek_cell f none = panic
  peek_cell f (some n) = f n

  unfoldable pub peek_at {κ} :
      {A : Type κ}
      → (Node Key S → Result (Option A))
      → StateStore Key S
      → Option ℕ
      → Result (Option A)
  unfolding peek_cell
  peek_at f s none = ok none
  peek_at f s (some a) = peek_cell f (get_elem? s.heap a)

  unfoldable pub peek_state : StateStore Key S → Key → Result (Option S)
  unfolding peek_at
  peek_state s i = peek_at (λ n. get_state dec n i) s (s.trees i)

  unfoldable pub peek_parent : StateStore Key S → Key → Result (Option Key)
  unfolding peek_at
  peek_parent s i = peek_at (λ n. get_parent_id dec n i) s (s.trees i)

  -- `s'` is `s` with the state of one id written.
  pub record Written (x : Key) (v : S) (s s' : StateStore Key S) : Type ℓ where
    pub store_linked : IsLinked s'
    pub same_trees : (j : Key) → s'.trees j ≡ s.trees j
    pub states : (j : Key) → peek_state s' j ≡ (if eqb dec x j then ok (some v) else peek_state s j)
    pub parents : (j : Key) → peek_parent s' j ≡ peek_parent s j

  abbrev pub with_cell : StateStore Key S → ℕ → Node Key S → StateStore Key S
  with_cell s a n = record s { heap = set s.heap a n }

  has-id : (n : Node Key S) → has dec (id n) n ≡ true
  unfolding has
  has-id (node i t ks cs) = rw (eqb_self dec i)

  -- A cell of a linked store is found under the root's id, and its tree is keyed.
  pub root_at :
      (s : StateStore Key S) (a : ℕ) (n : Node Key S)
      → IsLinked s
      → get_elem? s.heap a ≡ some n
      → s.trees (id n) ≡ some a
  root_at s a n v cell = v.indexed a n (id n) cell (has-id n)

  pub cell-IsKeyed :
      (s : StateStore Key S) (a : ℕ) (n : Node Key S)
      → IsLinked s
      → get_elem? s.heap a ≡ some n
      → IsKeyed dec n
  cell-IsKeyed s a n v cell =
      let h = v.linked (id n) a (root_at s a n v cell) in
      let both : some h.tree ≡ some n = sym h.cell ∙ cell in
      let same : h.tree ≡ n = ground (arith, both) in rw (← same) h.keyed

  module _ (s : StateStore Key S) (x : Key) (a : ℕ) (n n' : Node Key S) (v : IsLinked s)
      (at : s.trees x ≡ some a) (cell : get_elem? s.heap a ≡ some n) where
    same_cell : (b : ℕ) (m : Node Key S) → natb a b ≡ true → get_elem? s.heap b ≡ some m → n ≡ m
    same_cell b m e h =
        let ab : a ≡ b = ground arith in
        let both : some n ≡ some m = sym cell ∙ ap (get_elem? s.heap) ab ∙ h in ground (arith, both)

    -- A cell whose tree has the same ids leaves the store linked.
    pub with_cell-IsLinked :
        IsKeyed dec n' → ((y : Key) → has dec y n' ≡ has dec y n) → IsLinked (with_cell s a n')
    with_cell-IsLinked k same = record {
      linked = λ i b e. held i b (v.linked i b e) (Bool-cases (natb a b));
      indexed = λ b m i e h. found b m i e h (Bool-cases (natb a b));
    }
      where
        held :
            (i : Key) (b : ℕ)
            → Holds s i b
            → ((natb a b ≡ true) ⊎ (natb a b ≡ false))
            → Holds (with_cell s a n') i b
        held i b h (inl e) = record {
          tree = n';
          cell = get_elem?-set s.heap a b n n' cell ∙ rw e;
          keyed = k;
          holds = same i ∙ ap (has dec i) (same_cell b h.tree e h.cell) ∙ h.holds;
        }
        held i b h (inr e) = record {
          tree = h.tree;
          cell = get_elem?-set s.heap a b n n' cell ∙ rw e h.cell;
          keyed = h.keyed;
          holds = h.holds;
        }

        found :
            (b : ℕ) (m : Node Key S) (i : Key)
            → get_elem? (set s.heap a n') b ≡ some m
            → has dec i m ≡ true
            → ((natb a b ≡ true) ⊎ (natb a b ≡ false))
            → s.trees i ≡ some b
        found b m i e h (inl c) =
            let ab : a ≡ b = ground arith in
            let is_m : some n' ≡ some m = sym (get_elem?-set s.heap a b n n' cell ∙ rw c) ∙ e in
            let old : has dec i n ≡ true = sym (same i) ∙ ground (arith, is_m, h) in
            v.indexed a n i cell old ∙ ap some ab
        found b m i e h (inr c) =
            v.indexed b m i (sym (get_elem?-set s.heap a b n n' cell ∙ rw c) ∙ e) h

    pub peek_with_cell {κ} :
        {A : Type κ} (f : Node Key S → Result (Option A)) (b : ℕ)
        → peek_at f (with_cell s a n') (some b) ≡ (if natb a b then f n' else peek_at f s (some b))
    unfolding peek_at
    peek_with_cell f b = rw (get_elem?-set s.heap a b n n' cell) (ground arith)

    pub peek_old {κ} :
        {A : Type κ} (f : Node Key S → Result (Option A)) (b : ℕ)
        → natb a b ≡ true
        → peek_at f s (some b) ≡ f n
    unfolding peek_at peek_cell
    peek_old f b c =
        let ab : a ≡ b = ground arith in
        ap (λ o. peek_cell f (get_elem? s.heap o)) (sym ab) ∙ rw cell

    x_at : (j : Key) → eqb dec x j ≡ true → s.trees j ≡ some a
    x_at j d = rw (← eqb_sound dec x j d) at

    not_x : (j : Key) (b : ℕ) → s.trees j ≡ some b → natb a b ≡ false → eqb dec x j ≡ false
    not_x j b e c = elim (Bool-cases (eqb dec x j)) [
      | inr d ↦ d
      | inl d ↦ let same : some b ≡ some a = sym e ∙ x_at j d in absurd (ground arith)
    ]

    -- Where the tree at the cell has the state of `x` written, so has the store.
    pub with_cell-Written : (w : S) → Updated dec x w n n' → Written x w s (with_cell s a n')
    unfolding peek_state peek_parent
    with_cell-Written w u = record {
      store_linked = with_cell-IsLinked u.keyed u.same_ids;
      same_trees = λ j. refl;
      states = λ j. states j (s.trees j) refl;
      parents = λ j. parents j (s.trees j) refl;
    }
      where
        states :
            (j : Key) (o : Option ℕ)
            → s.trees j ≡ o
            → peek_at (λ m. get_state dec m j) (with_cell s a n') o
              ≡ (if eqb dec x j then ok (some w) else peek_at (λ m. get_state dec m j) s o)
        states j none e = elim (Bool-cases (eqb dec x j)) [
          | inl d ↦ cc (sym e ∙ x_at j d)
          | inr d ↦ rw d
        ]
        states j (some b) e =
            let f = λ (m : Node Key S). get_state dec m j in
            peek_with_cell f b ∙ elim (Bool-cases (natb a b)) [
              | inr c ↦ rw (c, not_x j b e c)
              | inl c ↦ rw c (elim (Bool-cases (eqb dec x j)) [
                | inl d ↦ rw d (u.states j ∙ rw d)
                | inr d ↦ rw d (u.states j ∙ rw d (sym (peek_old f b c)))
              ])
            ]

        parents :
            (j : Key) (o : Option ℕ)
            → s.trees j ≡ o
            → peek_at (λ m. get_parent_id dec m j) (with_cell s a n') o
              ≡ peek_at (λ m. get_parent_id dec m j) s o
        parents j none e = refl
        parents j (some b) e =
            let f = λ (m : Node Key S). get_parent_id dec m j in
            peek_with_cell f b ∙ elim (Bool-cases (natb a b)) [
              | inr c ↦ rw c
              | inl c ↦ rw c (u.same_parents j ∙ sym (peek_old f b c))
            ]
