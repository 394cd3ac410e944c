-- ===== src/Node/Focus.antt =====
-- `Zipper::child` and `Zipper::parent` undo each other, and so do a descent and the way back.
use rex_sm.Base.{
  ℕ, ◌≡◌, refl, ap, ◌∙◌, true, some, ok, eqb, arith, get_elem?, set, swap-swap_remove,
}
use rex_sm.Node.Tree.{Node, node, Nodes, nil, cons, id, children, with_children, to_list, from_list}
use rex_sm.Node.Zipper.{Zipper, boxed, child, parent, zipper, by_id, finish_update}
use rex_sm.Node.Spec.{has, edit, edit_any, IsKeyed}
use rex_sm.Node.Descent.{attach_lem}
use rex_sm.Node.Update.{by_id_lem}

module _ {ℓ} {Key S : Type ℓ} where
  child_lem :
      (n : Node Key S) (z : Zipper Key S) (idx : ℕ) (c : Node Key S)
      → z.node ≡ n
      → get_elem? (children n) idx ≡ some c
      → (zc : Zipper Key S) × (child z idx ≡ ok zc)
        × (zc.node ≡ c)
        × ((w : Node Key S)
            → parent (record zc { node = w })
              ≡ ok (record z { node = with_children (set (children n) idx w) n }))
  unfolding child parent
  child_lem (node i s ks cs) z idx c e h =
      let (rest, removed, back) = swap-swap_remove (to_list cs) idx c h in
      (
        record {
          node = c;
          parent = boxed (node i s ks (from_list rest)) z.parent z.self_idx;
          self_idx = idx;
        },
        rw (e, removed),
        refl,
        λ w. rw (attach_lem i s ks rest _ idx w (back w)),
      )

  -- At an index in range `child` takes that child into focus, and `parent` goes back: the focus,
  -- as it is by then, stands at its index again, and every other child where it was.
  pub parent-child :
      (z : Zipper Key S) (idx : ℕ) (c : Node Key S)
      → get_elem? (children z.node) idx ≡ some c
      → (zc : Zipper Key S) × (child z idx ≡ ok zc)
        × (zc.node ≡ c)
        × ((w : Node Key S)
            → parent (record zc { node = w })
              ≡ ok (record z { node = with_children (set (children z.node) idx w) z.node }))
  parent-child z idx c h = child_lem z.node z idx c refl h

module _ {ℓ} {Key S : Type ℓ} (dec : Discrete Key) (x : Key) where
  mutual
    unfolding edit

    edit_same : (n : Node Key S) → edit dec x (λ m. m) (λ m. m) n ≡ n
    edit_same (node i s ks cs) = ground (arith, edit_any_same cs)

    edit_any_same : (ns : Nodes Key S) → edit_any dec x (λ m. m) (λ m. m) ns ≡ ns
    edit_any_same nil = refl
    edit_any_same (cons n ns) = rw (edit_same n, edit_any_same ns)

  -- On a keyed tree that holds the id, a descent to it succeeds within the fuel, ends at the node
  -- with the id, and the way back without a change gives the tree again.
  pub finish_update-by_id :
      (n : Node Key S)
      → IsKeyed dec n
      → has dec x n ≡ true
      → (z : Zipper Key S) × (by_id dec (zipper n) x ≡ ok z)
        × (eqb dec (id z.node) x ≡ true)
        × (finish_update z ≡ ok n)
  unfolding finish_update zipper
  finish_update-by_id n k h =
      let (z, found, foc) = by_id_lem dec n x k h in
      (z, found, foc.at_id, foc.back (λ m. m) (λ m. m) ∙ ap ok (edit_same n))
