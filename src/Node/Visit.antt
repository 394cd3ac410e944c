-- ===== src/Node/Visit.antt =====
-- `update_all_fn` with a closure that rewrites the state of the node in focus and finishes.
use rex_sm.Base.{◌≡◌, refl, ap, sym, ◌∙◌, Option, Result, ok, ◌>>=◌, arith}
use mathlib.Core.Option
use rex_sm.Node.Tree.{Node, node, Nodes, nil, cons, id, state, with_state, get_state, get_parent_id}
use rex_sm.Node.Zipper.{Zipper, finish_update}
use rex_sm.Node.Edit.{finish_update_fn, finish_update_fn_all, update_all_fn}
use rex_sm.Node.Spec.{
  has, has_any, find_node, find_any, is_child, parent_in, parent_any, IsKeyed, IsKeyedAll,
}
use rex_sm.Node.Read.{get_state-find_node, get_parent_id-parent_in}

module _ {ℓ} {Key S : Type ℓ} (w : S → S) where
  -- `|mut z| { z.node.state = w(z.node.state); z.finish_update() }`
  unfoldable pub rewrite_state : Zipper Key S → Result (Node Key S)
  unfolding finish_update
  rewrite_state z = finish_update (record z { node = with_state (w (state z.node)) z.node })

  unfoldable mutual
    pub map_states : Node Key S → Node Key S
    map_states (node i s ks cs) = node i (w s) ks (map_states_all cs)

    pub map_states_all : Nodes Key S → Nodes Key S
    map_states_all nil = nil
    map_states_all (cons n ns) = cons (map_states n) (map_states_all ns)

  mutual
    unfolding finish_update_fn rewrite_state map_states

    finish_update_fn_lem : (n : Node Key S) → finish_update_fn rewrite_state n ≡ ok (map_states n)
    finish_update_fn_lem (node i s ks cs) = rw (finish_update_fn_all_lem cs)

    finish_update_fn_all_lem :
        (ns : Nodes Key S) → finish_update_fn_all rewrite_state ns ≡ ok (map_states_all ns)
    finish_update_fn_all_lem nil = refl
    finish_update_fn_all_lem (cons n ns) = rw (finish_update_fn_lem n, finish_update_fn_all_lem ns)

  pub update_all_fn_lem :
      (new_state : Key → S) (n : Node Key S)
      → update_all_fn rewrite_state new_state n ≡ (map_states n, ok tt)
  unfolding update_all_fn
  update_all_fn_lem new_state n = rw (finish_update_fn_lem n, update_all_fn)

  module _ (dec : Discrete Key) where
    mutual
      unfolding map_states has

      pub has-map_states : (y : Key) (n : Node Key S) → has dec y (map_states n) ≡ has dec y n
      has-map_states y (node i t ks cs) = rw (has_any-map_states y cs)

      has_any-map_states :
          (y : Key) (ns : Nodes Key S) → has_any dec y (map_states_all ns) ≡ has_any dec y ns
      has_any-map_states y nil = refl
      has_any-map_states y (cons n ns) = rw (has-map_states y n, has_any-map_states y ns)

    mutual
      unfolding map_states

      pub map_states-IsKeyed : (n : Node Key S) → IsKeyed dec n → IsKeyed dec (map_states n)
      map_states-IsKeyed (node i t ks cs) k = (
        (λ y. k.0 y ∙ sym (has_any-map_states y cs)),
        has_any-map_states i cs ∙ k.1,
        map_states_all-IsKeyed cs k.2,
      )

      map_states_all-IsKeyed :
          (ns : Nodes Key S) → IsKeyedAll dec ns → IsKeyedAll dec (map_states_all ns)
      map_states_all-IsKeyed nil k = tt
      map_states_all-IsKeyed (cons n ns) k = (
        map_states-IsKeyed n k.0,
        (λ y h. has_any-map_states y ns ∙ k.1 y (sym (has-map_states y n) ∙ h)),
        map_states_all-IsKeyed ns k.2,
      )

    id-map_states : (n : Node Key S) → id (map_states n) ≡ id n
    unfolding map_states
    id-map_states (node i t ks cs) = refl

    is_child-map_states :
        (y : Key) (ns : Nodes Key S) → is_child dec y (map_states_all ns) ≡ is_child dec y ns
    unfolding map_states is_child
    is_child-map_states y nil = refl
    is_child-map_states y (cons n ns) = rw (id-map_states n, is_child-map_states y ns)

    mutual
      unfolding map_states parent_in

      parent_in-map_states :
          (y : Key) (n : Node Key S) → parent_in dec y (map_states n) ≡ parent_in dec y n
      parent_in-map_states y (node i t ks cs) =
          rw (is_child-map_states y cs, parent_any-map_states y cs)

      parent_any-map_states :
          (y : Key) (ns : Nodes Key S) → parent_any dec y (map_states_all ns) ≡ parent_any dec y ns
      parent_any-map_states y nil = refl
      parent_any-map_states y (cons n ns) =
          rw (parent_in-map_states y n, parent_any-map_states y ns)

    abbrev written : Option S → Option S
    written = Option.map w

    mutual
      unfolding map_states find_node

      state-map_states :
          (y : Key) (n : Node Key S)
          → Option.map state (find_node dec y (map_states n))
            ≡ written (Option.map state (find_node dec y n))
      state-map_states y (node i t ks cs) = ground (arith, state_any-map_states y cs)

      state_any-map_states :
          (y : Key) (ns : Nodes Key S)
          → Option.map state (find_any dec y (map_states_all ns))
            ≡ written (Option.map state (find_any dec y ns))
      state_any-map_states y nil = refl
      state_any-map_states y (cons n ns) =
          ground (arith, state-map_states y n, state_any-map_states y ns)

    -- `update_all_fn` on a keyed tree, with a closure that rewrites the state of the node in focus
    -- and finishes, returns and rewrites the state of every node once; ids and parents stay, and
    -- the tree stays keyed.
    pub update_all_fn-states :
        (new_state : Key → S) (n : Node Key S) (y : Key)
        → IsKeyed dec n
        → let (n', r) = update_all_fn rewrite_state new_state n in
          (r ≡ ok tt)
          × IsKeyed dec n'
          × (has dec y n' ≡ has dec y n)
          × (get_parent_id dec n' y ≡ get_parent_id dec n y)
          × (get_state dec n' y ≡ (do o ← get_state dec n y; ok (written o)))
    update_all_fn-states new_state n y k =
        let k' = map_states-IsKeyed n k in
        rw (update_all_fn_lem new_state n) (
          refl,
          k',
          has-map_states y n,
          get_parent_id-parent_in dec y _ k'
              ∙ ap ok (parent_in-map_states y n)
              ∙ sym (get_parent_id-parent_in dec y n k),
          rw (get_state-find_node dec y n k)
              (get_state-find_node dec y _ k' ∙ ap ok (state-map_states y n)),
        )
