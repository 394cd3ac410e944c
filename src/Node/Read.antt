-- ===== src/Node/Read.antt =====
-- `get`, `get_state` and `get_parent_id` against the tree that they search.
use rex_sm.Base.{
  ℕ, zero, suc, ◌≤◌, ◌≡◌, refl, ◌∙◌, inl, inr, true, false, ◌||◌, none, some, ok, eqb, eqb_self,
  contains, Bool-cases, arith,
}
use mathlib.Core.Option
use rex_sm.Node.Tree.{
  Node, node, new, id, size, state, child, get_loop, get, get_state, parent_loop, get_parent_id,
}
use rex_sm.Node.Spec.{has, has_any, find_node, parent_in, IsKeyed}
use rex_sm.Node.Pick.{pick, find_node_absent, is_child_absent, parent_any_absent}
use rex_sm.Node.Descent.{not_root}

module _ {ℓ} {Key S : Type ℓ} (dec : Discrete Key) (x : Key) where
  get_loop_lem :
      (fuel : ℕ) (n : Node Key S)
      → size n ≤ fuel
      → IsKeyed dec n
      → has dec x n ≡ true
      → (m : Node Key S) × (get_loop dec fuel n x ≡ ok m) × (find_node dec x n ≡ some m)
  unfolding get_loop size has find_node child
  get_loop_lem zero (node i s ks cs) big k h = absurd (omega arith)
  get_loop_lem (suc fuel) (node i s ks cs) big k h = elim (Bool-cases (has_any dec x cs)) [
    | inr e ↦ (node i s ks cs, rw (k.0 x, e), ground arith)
    | inl e ↦
        let p = pick dec x cs k.2 e in
        let (m, found, same) =
          get_loop_lem fuel p.picked (omega (arith, p.smaller)) p.keyed p.holds in
        (m, rw (k.0 x, e, p.found) found, rw (not_root dec x i cs k.1 e) (p.finds ∙ same))
  ]

  -- On a keyed tree `get` neither panics nor runs on, and finds the node with the id if there is
  -- one.
  pub get-find_node : (n : Node Key S) → IsKeyed dec n → get dec n x ≡ ok (find_node dec x n)
  unfolding get has find_node
  get-find_node (node i s ks cs) k = elim (Bool-cases (has dec x (node i s ks cs))) [
    | inr e ↦ rw (k.0 x) (ground (arith, find_node_absent dec x (node i s ks cs)))
    | inl e ↦
        let (m, found, same) =
          get_loop_lem (size (node i s ks cs)) (node i s ks cs) (omega arith) k e in
        rw (k.0 x) (ground (arith, found, same))
  ]

  parent_loop_lem :
      (fuel : ℕ) (n : Node Key S)
      → size n ≤ fuel
      → IsKeyed dec n
      → has dec x n ≡ true
      → eqb dec (id n) x ≡ false
      → parent_loop dec fuel n x ≡ ok (parent_in dec x n)
  unfolding parent_loop size has parent_in child
  parent_loop_lem zero (node i s ks cs) big k h ne = absurd (omega arith)
  parent_loop_lem (suc fuel) (node i s ks cs) big k h ne =
      let e : has_any dec x cs ≡ true = ground arith in
      let p = pick dec x cs k.2 e in
      let step = parent_loop_lem fuel p.picked (omega (arith, p.smaller)) p.keyed p.holds in
      rw (k.0 x, e, p.found, p.parents i)
        (elim (Bool-cases (eqb dec (id p.picked) x)) [
          | inl here ↦ rw here
          | inr more ↦ rw (more, step more)
        ])

  -- On a keyed tree `get_parent_id` neither panics nor runs on, and finds the parent; the root has
  -- none, nor has an id that is not in the tree.
  pub get_parent_id-parent_in :
      (n : Node Key S) → IsKeyed dec n → get_parent_id dec n x ≡ ok (parent_in dec x n)
  unfolding get_parent_id has parent_in
  get_parent_id-parent_in (node i s ks cs) k = elim (Bool-cases (has_any dec x cs)) [
    | inr e ↦ rw (k.0 x, e, is_child_absent dec x cs e, parent_any_absent dec x cs e)
    | inl e ↦
        rw (k.0 x, e)
          (parent_loop_lem (size (node i s ks cs)) (node i s ks cs) (omega arith) k (ground arith)
            (not_root dec x i cs k.1 e))
  ]

  pub get_state-find_node :
      (n : Node Key S)
      → IsKeyed dec n
      → get_state dec n x ≡ ok (Option.map state (find_node dec x n))
  unfolding get_state
  get_state-find_node n k = rw (get-find_node n k)

-- A fresh node.
module _ {ℓ} {Key S : Type ℓ} (dec : Discrete Key) (new_state : Key → S) (x : Key) where
  pub has-new : (y : Key) → has dec y (new new_state x) ≡ (eqb dec x y || false)
  unfolding has new
  has-new y = refl

  pub new-IsKeyed : IsKeyed dec (new new_state x)
  unfolding new has contains
  new-IsKeyed = ((λ y. refl), refl, tt)

  pub get_state-new : get_state dec (new new_state x) x ≡ ok (some (new_state x))
  unfolding get_state new
  get_state-new = rw (eqb_self dec x)

  pub get_parent_id-new : get_parent_id dec (new new_state x) x ≡ ok none
  unfolding get_parent_id new contains
  get_parent_id-new = refl
