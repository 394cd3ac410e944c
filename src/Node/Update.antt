-- ===== src/Node/Update.antt =====
-- `update` and `update_and_get_parent_id`: what they change, and what they leave.
use rex_sm.Base.{
  ◌≡◌, refl, sym, ◌∙◌, inl, inr, true, false, Option, none, some, ok, eqb, eqb_sound, Bool-cases,
  arith,
}
use mathlib.Core.Option
use rex_sm.Node.Tree.{Node, node, Nodes, nil, cons, id, size, state, with_state}
use rex_sm.Node.Zipper.{
  Zipper, zipper, by_id, set_state, finish_update, finish_update_parent_id, parent_id, root,
}
use rex_sm.Node.Edit.{into_update, update, update_and_get_parent_id}
use rex_sm.Node.Spec.{
  has, has_any, find_node, find_any, is_child, parent_in, parent_any, edit, edit_any, IsKeyed,
  IsKeyedAll,
}
use rex_sm.Node.Pick.{edit_absent, find_node_absent, is_child_absent, parent_any_absent}
use rex_sm.Node.Descent.{descent, Focused}

module _ {ℓ} {Key S : Type ℓ} (dec : Discrete Key) where
  pub by_id_lem :
      (n : Node Key S) (x : Key)
      → IsKeyed dec n
      → has dec x n ≡ true
      → (z : Zipper Key S) × (by_id dec (zipper n) x ≡ ok z) × Focused dec x (zipper n) z
  unfolding by_id zipper
  by_id_lem n x k h =
      let (z, found, foc) = descent dec x (size n) n root 0 (omega arith) k h in
      (z, rw (found, foc.at_id), foc)

  -- the tree with another state at an id
  unfoldable pub with_state_at : Key → S → Node Key S → Node Key S
  unfolding edit
  with_state_at x s = edit dec x (with_state s) (λ n. n)

  parent_in_root :
      (n : Node Key S) (x : Key)
      → IsKeyed dec n
      → eqb dec (id n) x ≡ true
      → parent_in dec x n ≡ none
  unfolding parent_in
  parent_in_root (node i s ks cs) x k e =
      let gone : has_any dec x cs ≡ false = rw (← eqb_sound dec i x e) k.1 in
      rw (is_child_absent dec x cs gone, parent_any_absent dec x cs gone)

  module _ (new_state : Key → S) (n : Node Key S) (x : Key) (s : S) (k : IsKeyed dec n)
      (h : has dec x n ≡ true) where
    pub into_update_lem :
        into_update dec new_state n (record { id = x; state = s }) ≡ ok (with_state_at x s n)
    unfolding into_update set_state finish_update zipper with_state_at
    into_update_lem =
        let (z, found, foc) = by_id_lem n x k h in rw (found, foc.back (with_state s) (λ n. n))

    pub update_lem :
        update dec new_state n (record { id = x; state = s }) ≡ (with_state_at x s n, ok tt)
    unfolding update
    update_lem = rw into_update_lem

    pub update_and_get_parent_id_lem :
        update_and_get_parent_id dec new_state n (record { id = x; state = s })
        ≡ (with_state_at x s n, ok (parent_in dec x n))
    unfolding update_and_get_parent_id set_state finish_update_parent_id finish_update zipper
        with_state_at parent_id
    update_and_get_parent_id_lem =
        let (z, found, foc) = by_id_lem n x k h in
        let root_case = parent_in_root n x k in
        rw (found, foc.back (with_state s) (λ n. n), foc.above)
          (elim (Bool-cases (eqb dec (id n) x)) [ inl e ↦ rw (e, root_case e) | inr e ↦ rw e ])

  module _ (x : Key) (s : S) where
    id-with_state_at : (n : Node Key S) → id (with_state_at x s n) ≡ id n
    unfolding with_state_at edit
    id-with_state_at (node i t ks cs) = ground arith

    mutual
      unfolding with_state_at has edit

      pub has-with_state_at :
          (y : Key) (n : Node Key S) → has dec y (with_state_at x s n) ≡ has dec y n
      has-with_state_at y (node i t ks cs) = ground (arith, has_any-with_state_at y cs)

      pub has_any-with_state_at :
          (y : Key) (ns : Nodes Key S)
          → has_any dec y (edit_any dec x (with_state s) (λ n. n) ns) ≡ has_any dec y ns
      has_any-with_state_at y nil = refl
      has_any-with_state_at y (cons n ns) = rw (has-with_state_at y n, has_any-with_state_at y ns)

    is_child-with_state_at :
        (y : Key) (ns : Nodes Key S)
        → is_child dec y (edit_any dec x (with_state s) (λ n. n) ns) ≡ is_child dec y ns
    unfolding with_state_at is_child edit
    is_child-with_state_at y nil = refl
    is_child-with_state_at y (cons n ns) = rw (id-with_state_at n, is_child-with_state_at y ns)

    mutual
      unfolding with_state_at parent_in edit

      -- An update moves no node.
      pub parent_in-with_state_at :
          (y : Key) (n : Node Key S) → parent_in dec y (with_state_at x s n) ≡ parent_in dec y n
      parent_in-with_state_at y (node i t ks cs) =
          ground (arith, is_child-with_state_at y cs, parent_any-with_state_at y cs)

      pub parent_any-with_state_at :
          (y : Key) (ns : Nodes Key S)
          → parent_any dec y (edit_any dec x (with_state s) (λ n. n) ns) ≡ parent_any dec y ns
      parent_any-with_state_at y nil = refl
      parent_any-with_state_at y (cons n ns) =
          rw (parent_in-with_state_at y n, parent_any-with_state_at y ns)

    mutual
      unfolding with_state_at edit

      pub with_state_at-IsKeyed :
          (n : Node Key S) → IsKeyed dec n → IsKeyed dec (with_state_at x s n)
      with_state_at-IsKeyed (node i t ks cs) k = elim (Bool-cases (eqb dec i x)) [
        | inl e ↦ rw e k
        | inr e ↦ elim (Bool-cases (has_any dec x cs)) [
          | inr f ↦ rw (e, f) k
          | inl f ↦
              rw (e, f)
                (
                  (λ y. k.0 y ∙ sym (has_any-with_state_at y cs)),
                  has_any-with_state_at i cs ∙ k.1,
                  with_state_at_all-IsKeyed cs k.2,
                )
        ]
      ]

      with_state_at_all-IsKeyed :
          (ns : Nodes Key S)
          → IsKeyedAll dec ns
          → IsKeyedAll dec (edit_any dec x (with_state s) (λ n. n) ns)
      with_state_at_all-IsKeyed nil k = tt
      with_state_at_all-IsKeyed (cons n ns) k = (
        with_state_at-IsKeyed n k.0,
        (λ y h. has_any-with_state_at y ns ∙ k.1 y (sym (has-with_state_at y n) ∙ h)),
        with_state_at_all-IsKeyed ns k.2,
      )

    abbrev pub state_in : Key → Node Key S → Option S
    state_in y n = Option.map state (find_node dec y n)

    mutual
      unfolding with_state_at edit has find_node

      pub state_in_self :
          (n : Node Key S) → has dec x n ≡ true → state_in x (with_state_at x s n) ≡ some s
      state_in_self (node i t ks cs) h = ground (arith, state_any_self cs)

      state_any_self :
          (ns : Nodes Key S)
          → has_any dec x ns ≡ true
          → Option.map state (find_any dec x (edit_any dec x (with_state s) (λ n. n) ns)) ≡ some s
      state_any_self nil h = cc
      state_any_self (cons n ns) h = elim (Bool-cases (has dec x n)) [
        | inl e ↦ ground (arith, state_in_self n)
        | inr e ↦
            rw (edit_absent dec x (with_state s) (λ n. n) n e, find_node_absent dec x n e)
              (state_any_self ns (rw e at h))
      ]

    mutual
      unfolding with_state_at edit has find_node

      pub state_in_other :
          (y : Key)
          → eqb dec x y ≡ false
          → (n : Node Key S) → state_in y (with_state_at x s n) ≡ state_in y n
      state_in_other y ne (node i t ks cs) = ground (arith, state_any_other y ne cs)

      state_any_other :
          (y : Key)
          → eqb dec x y ≡ false
          → (ns : Nodes Key S)
          → Option.map state (find_any dec y (edit_any dec x (with_state s) (λ n. n) ns))
            ≡ Option.map state (find_any dec y ns)
      state_any_other y ne nil = refl
      state_any_other y ne (cons n ns) =
          ground (arith, state_in_other y ne n, state_any_other y ne ns)
