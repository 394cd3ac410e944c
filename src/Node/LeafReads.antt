-- ===== src/Node/LeafReads.antt =====
-- `insert` on the whole, seen by the reads.
use rex_sm.Base.{
  ◌≡◌, refl, ap, sym, ◌∙◌, inl, inr, true, false, ◌||◌, Option, none, some, push, ok, if◌then◌else◌,
  eqb, eqb_self, eqb_sound, Bool-cases, written_at, arith,
}
use mathlib.Core.Option
use rex_sm.Node.Tree.{
  Node, node, Nodes, nil, cons, id, new, state, to_list, from_list, get_state, get_parent_id,
}
use rex_sm.Node.Zipper.{add_key}
use rex_sm.Node.Edit.{insert}
use rex_sm.Node.Spec.{
  or_else, or_else-none, has, has_any, find_node, find_any, is_child, parent_in, parent_any, edit,
  IsKeyed,
}
use rex_sm.Node.Pick.{
  edit_absent, find_node_absent, find_any_absent, parent_in_absent, is_child_absent,
}
use rex_sm.Node.Read.{get_state-find_node, get_parent_id-parent_in}
use rex_sm.Node.Insert.{with_child, with_leaf, with_leaf_any, insert_lem, has-with_leaf}
use rex_sm.Node.Leaf.{with_leaf-IsKeyed}

module _ {ℓ} {Key S : Type ℓ} (dec : Discrete Key) (new_state : Key → S) (p x : Key) where
  abbrev state_of : Key → Node Key S → Option S
  state_of y n = Option.map state (find_node dec y n)

  abbrev state_any : Key → Nodes Key S → Option S
  state_any y ns = Option.map state (find_any dec y ns)

  abbrev pushed : Nodes Key S → Nodes Key S
  pushed ns = from_list (push (to_list ns) (new new_state x))

  state_any-pushed :
      (y : Key) (ns : Nodes Key S)
      → state_any y (pushed ns)
        ≡ or_else (state_any y ns) (if eqb dec x y then some (new_state x) else none)
  unfolding find_node new
  state_any-pushed y nil = ground arith
  state_any-pushed y (cons n ns) = ground (arith, state_any-pushed y ns)

  is_child-pushed :
      (y : Key) (ns : Nodes Key S) → is_child dec y (pushed ns) ≡ (is_child dec y ns || eqb dec x y)
  unfolding is_child new
  is_child-pushed y nil = ground arith
  is_child-pushed y (cons n ns) = ground (arith, is_child-pushed y ns)

  parent_any-pushed :
      (y : Key) (ns : Nodes Key S) → parent_any dec y (pushed ns) ≡ parent_any dec y ns
  unfolding parent_in is_child new
  parent_any-pushed y nil = refl
  parent_any-pushed y (cons n ns) = rw (parent_any-pushed y ns)

  id-with_leaf : (n : Node Key S) → id (with_leaf dec new_state p x n) ≡ id n
  unfolding with_leaf edit
  id-with_leaf (node i t ks cs) = ground arith

  is_child-with_leaf_any :
      (y : Key) (ns : Nodes Key S)
      → is_child dec y (with_leaf_any dec new_state p x ns) ≡ is_child dec y ns
  unfolding with_leaf is_child edit
  is_child-with_leaf_any y nil = refl
  is_child-with_leaf_any y (cons n ns) = rw (id-with_leaf n, is_child-with_leaf_any y ns)

  module _ (y : Key) (ne : eqb dec x y ≡ false) where
    mutual
      unfolding with_leaf edit has find_node

      state_other : (n : Node Key S) → state_of y (with_leaf dec new_state p x n) ≡ state_of y n
      state_other (node i s ks cs) =
          ground (arith, state_any-pushed y cs, or_else-none (state_any y cs), state_any_other cs)

      state_any_other :
          (ns : Nodes Key S) → state_any y (with_leaf_any dec new_state p x ns) ≡ state_any y ns
      state_any_other nil = refl
      state_any_other (cons n ns) = ground (arith, state_other n, state_any_other ns)

    mutual
      unfolding with_leaf edit has parent_in

      parent_other :
          (n : Node Key S) → parent_in dec y (with_leaf dec new_state p x n) ≡ parent_in dec y n
      parent_other (node i s ks cs) = ground (
        arith,
        is_child-pushed y cs,
        parent_any-pushed y cs,
        is_child-with_leaf_any y cs,
        parent_any_other cs,
      )

      parent_any_other :
          (ns : Nodes Key S)
          → parent_any dec y (with_leaf_any dec new_state p x ns) ≡ parent_any dec y ns
      parent_any_other nil = refl
      parent_any_other (cons n ns) = rw (parent_other n, parent_any_other ns)

  mutual
    unfolding with_leaf edit has find_node

    state_new :
        (n : Node Key S)
        → has dec x n ≡ false
        → has dec p n ≡ true
        → state_of x (with_leaf dec new_state p x n) ≡ some (new_state x)
    state_new (node i s ks cs) f h =
        ground
          (arith, state_any-pushed x cs, eqb_self dec x, find_any_absent dec x cs, state_any_new cs)

    state_any_new :
        (ns : Nodes Key S)
        → has_any dec x ns ≡ false
        → has_any dec p ns ≡ true
        → state_any x (with_leaf_any dec new_state p x ns) ≡ some (new_state x)
    state_any_new nil f h = cc
    state_any_new (cons n ns) f h = elim (Bool-cases (has dec p n)) [
      | inl e ↦ ground (arith, state_new n)
      | inr e ↦
          rw
            (
              edit_absent dec p (with_child dec new_state p x) (add_key dec x) n e,
              find_node_absent dec x n (ground arith),
            )
            (state_any_new ns (ground arith) (ground arith))
    ]

  mutual
    unfolding with_leaf edit has parent_in

    parent_new :
        (n : Node Key S)
        → has dec x n ≡ false
        → has dec p n ≡ true
        → parent_in dec x (with_leaf dec new_state p x n) ≡ some p
    parent_new (node i s ks cs) f h = elim (Bool-cases (eqb dec i p)) [
      | inl e ↦ rw (e, is_child-pushed x cs, eqb_self dec x) (ground (arith, eqb_sound dec i p e))
      | inr e ↦
          rw e (
            ground
              (arith, is_child-with_leaf_any x cs, is_child_absent dec x cs, parent_any_new cs))
    ]

    parent_any_new :
        (ns : Nodes Key S)
        → has_any dec x ns ≡ false
        → has_any dec p ns ≡ true
        → parent_any dec x (with_leaf_any dec new_state p x ns) ≡ some p
    parent_any_new nil f h = cc
    parent_any_new (cons n ns) f h = elim (Bool-cases (has dec p n)) [
      | inl e ↦ ground (arith, parent_new n)
      | inr e ↦
          rw
            (
              edit_absent dec p (with_child dec new_state p x) (add_key dec x) n e,
              parent_in_absent dec x n (ground arith),
            )
            (parent_any_new ns (ground arith) (ground arith))
    ]

  -- What a tree looks like once `x` is a new leaf below `p` and nothing else is changed.
  pub record Inserted (n n' : Node Key S) : Type ℓ where
    pub keyed : IsKeyed dec n'
    pub ids : (y : Key) → has dec y n' ≡ (eqb dec x y || has dec y n)
    pub states :
        (y : Key)
        → get_state dec n' y ≡ (if eqb dec x y then ok (some (new_state x)) else get_state dec n y)
    pub parents :
        (y : Key)
        → get_parent_id dec n' y ≡ (if eqb dec x y then ok (some p) else get_parent_id dec n y)

  pub with_leaf-Inserted :
      (n : Node Key S)
      → IsKeyed dec n
      → has dec x n ≡ false
      → has dec p n ≡ true
      → Inserted n (with_leaf dec new_state p x n)
  with_leaf-Inserted n k f h =
      let k' = with_leaf-IsKeyed dec new_state p x n f h k in
      record {
        keyed = k';
        ids = λ y. has-with_leaf dec new_state p x y n h;
        states = λ y.
            written_at dec x y (get_state dec (with_leaf dec new_state p x n))
              (get_state-find_node dec x _ k' ∙ ap ok (state_new n f h))
              (λ ne.
                get_state-find_node dec y _ k'
                ∙ ap ok (state_other y ne n)
                ∙ sym (get_state-find_node dec y n k));
        parents = λ y.
            written_at dec x y (get_parent_id dec (with_leaf dec new_state p x n))
              (get_parent_id-parent_in dec x _ k' ∙ ap ok (parent_new n f h))
              (λ ne.
                get_parent_id-parent_in dec y _ k'
                ∙ ap ok (parent_other y ne n)
                ∙ sym (get_parent_id-parent_in dec y n k));
      }

  -- On a keyed tree that holds the parent and not yet the id, `insert` returns; the new node is a
  -- child of its parent in the kind's new state, no other state or parent is changed, and the tree
  -- stays keyed.
  pub insert-Inserted :
      (n : Node Key S)
      → IsKeyed dec n
      → has dec x n ≡ false
      → has dec p n ≡ true
      → let (n', r) = insert dec new_state n (record { parent_id = some p; id = x }) in
        (r ≡ ok tt) × Inserted n n'
  insert-Inserted n k f h =
      rw (insert_lem dec new_state p x n k h) (refl, with_leaf-Inserted n k f h)
