-- ===== src/Node/Leaf.antt =====
-- What `insert` leaves of the tree, and what it adds.
use rex_sm.Base.{
  ◌≡◌, refl, ◌∙◌, inl, inr, true, false, push, eqb, eqb_self, eqb_sound, eqb_apart, contains,
  contains-set_insert, Bool-cases, arith,
}
use rex_sm.Node.Tree.{Node, node, Nodes, nil, cons, new, to_list, from_list}
use rex_sm.Node.Zipper.{add_key}
use rex_sm.Node.Spec.{has, has_any, edit, IsKeyed, IsKeyedAll}
use rex_sm.Node.Pick.{edit_absent, edit_any_absent}
use rex_sm.Node.Insert.{
  with_child, with_leaf, with_leaf_any, has_any-push, has-with_leaf, has_any-with_leaf,
}

module _ {ℓ} {Key S : Type ℓ} (dec : Discrete Key) where
  module _ (new_state : Key → S) (p x : Key) where
    push-IsKeyed :
        (ns : Nodes Key S)
        → has_any dec x ns ≡ false
        → IsKeyedAll dec ns
        → IsKeyedAll dec (from_list (push (to_list ns) (new new_state x)))
    unfolding has new contains
    push-IsKeyed nil h k = (((λ y. refl), refl, tt), (λ y e. refl), tt)
    push-IsKeyed (cons n ns) h k = (
      k.0,
      (λ y e.
          rw
            (
              has_any-push dec new_state p x y ns,
              k.1 y e,
              eqb_apart dec x y (λ z. has dec z n) e (ground arith),
            )
            refl),
      push-IsKeyed ns (ground arith) k.2,
    )

    mutual
      unfolding with_leaf has edit

      pub with_leaf-IsKeyed :
          (n : Node Key S)
          → has dec x n ≡ false
          → has dec p n ≡ true
          → IsKeyed dec n
          → IsKeyed dec (with_leaf dec new_state p x n)
      with_leaf-IsKeyed (node i s ks cs) f h k =
          let xi : eqb dec x i ≡ false =
            eqb_apart dec x i (λ z. has dec z (node i s ks cs)) (ground (arith, eqb_self dec i))
              f in
          let fc : has_any dec x cs ≡ false = ground arith in
          elim (Bool-cases (eqb dec i p)) [
            | inl e ↦ rw e (
              (λ y.
                  contains-set_insert dec x y ks ∙ rw (has_any-push dec new_state p x y cs, k.0 y)),
              rw (has_any-push dec new_state p x i cs, k.1, xi),
              push-IsKeyed cs fc k.2,
            )
            | inr e ↦
                let hp : has_any dec p cs ≡ true = ground arith in
                rw (e, hp)
                  (
                    (λ y.
                        contains-set_insert dec x y ks
                        ∙ rw (has_any-with_leaf dec new_state p x y cs hp, k.0 y)),
                    rw (has_any-with_leaf dec new_state p x i cs hp, k.1, xi),
                    with_leaf_any-IsKeyed cs fc hp k.2,
                  )
          ]

      with_leaf_any-IsKeyed :
          (ns : Nodes Key S)
          → has_any dec x ns ≡ false
          → has_any dec p ns ≡ true
          → IsKeyedAll dec ns
          → IsKeyedAll dec (with_leaf_any dec new_state p x ns)
      with_leaf_any-IsKeyed nil f h k = tt
      with_leaf_any-IsKeyed (cons n ns) f h k =
          let fn : has dec x n ≡ false = ground arith in
          let fs : has_any dec x ns ≡ false = ground arith in
          elim (Bool-cases (has dec p n)) [
            | inl e ↦
                rw
                  (edit_any_absent dec p (with_child dec new_state p x) (add_key dec x) ns
                    (k.1 p e))
                  (
                    with_leaf-IsKeyed n fn e k.0,
                    (λ y g. elim (Bool-cases (eqb dec x y)) [
                      | inl xy ↦ rw (← eqb_sound dec x y xy) fs
                      | inr xy ↦ k.1 y (ground (arith, has-with_leaf dec new_state p x y n e))
                    ]),
                    k.2,
                  )
            | inr e ↦
                let hs : has_any dec p ns ≡ true = ground arith in
                rw (edit_absent dec p (with_child dec new_state p x) (add_key dec x) n e) (
                  k.0,
                  (λ y g.
                      has_any-with_leaf dec new_state p x y ns hs
                      ∙ rw (eqb_apart dec x y (λ z. has dec z n) g fn, k.1 y g)),
                  with_leaf_any-IsKeyed ns fs hs k.2,
                )
          ]
