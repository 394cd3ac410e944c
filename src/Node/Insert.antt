-- ===== src/Node/Insert.antt =====
-- `insert`: a new leaf below its parent.
use rex_sm.Base.{◌≡◌, true, ◌||◌, some, push, ok, eqb, arith}
use rex_sm.Node.Tree.{
  Node, node, Nodes, nil, cons, new, children, with_children, to_list, from_list,
}
use rex_sm.Node.Zipper.{zipper, insert_child, finish_insert, add_key}
use rex_sm.Node.Edit.{insert}
use rex_sm.Node.Spec.{has, has_any, edit, edit_any, IsKeyed}
use rex_sm.Node.Pick.{edit_absent, edit_any_absent}
use rex_sm.Node.Update.{by_id_lem}

module _ {ℓ} {Key S : Type ℓ} (dec : Discrete Key) (new_state : Key → S) (p x : Key) where
  abbrev pub with_child : Node Key S → Node Key S
  with_child n = add_key dec x (with_children (push (children n) (new new_state x)) n)

  -- the tree with a new leaf `x` under `p`
  unfoldable pub with_leaf : Node Key S → Node Key S
  unfolding edit new
  with_leaf = edit dec p with_child (add_key dec x)

  abbrev pub with_leaf_any : Nodes Key S → Nodes Key S
  with_leaf_any = edit_any dec p with_child (add_key dec x)

  pub insert_lem :
      (n : Node Key S)
      → IsKeyed dec n
      → has dec p n ≡ true
      → insert dec new_state n (record { parent_id = some p; id = x }) ≡ (with_leaf n, ok tt)
  unfolding insert insert_child finish_insert zipper with_leaf
  insert_lem n k h =
      let (z, found, foc) = by_id_lem dec n p k h in rw (found, foc.back with_child (add_key dec x))

  pub has_any-push :
      (y : Key) (ns : Nodes Key S)
      → has_any dec y (from_list (push (to_list ns) (new new_state x)))
        ≡ (eqb dec x y || has_any dec y ns)
  unfolding has new
  has_any-push y nil = ground arith
  has_any-push y (cons n ns) = ground (arith, has_any-push y ns)

  mutual
    unfolding has with_leaf

    pub has-with_leaf :
        (y : Key) (n : Node Key S)
        → has dec p n ≡ true
        → has dec y (with_leaf n) ≡ (eqb dec x y || has dec y n)
    has-with_leaf y (node i s ks cs) h = ground (arith, has_any-push y cs, has_any-with_leaf y cs)

    pub has_any-with_leaf :
        (y : Key) (ns : Nodes Key S)
        → has_any dec p ns ≡ true
        → has_any dec y (with_leaf_any ns) ≡ (eqb dec x y || has_any dec y ns)
    has_any-with_leaf y nil h = cc
    has_any-with_leaf y (cons n ns) h = ground (
      arith,
      has-with_leaf y n,
      has_any-with_leaf y ns,
      edit_absent dec p with_child (add_key dec x) n,
      edit_any_absent dec p with_child (add_key dec x) ns,
    )
