-- ===== src/Node/Frame.antt =====
-- `update` on the whole: seen by the reads, on a tree that has the id and on one that has not.
use rex_sm.Base.{◌≡◌, refl, true, false, some, ok, panic, eqb, if◌then◌else◌, written_at, arith}
use rex_sm.Node.Tree.{Node, node, id, size, new, get_state, get_parent_id}
use rex_sm.Node.Zipper.{zipper, by_id, by_id_loop}
use rex_sm.Node.Edit.{update, update_and_get_parent_id, insert}
use rex_sm.Node.Spec.{has, has_any, IsKeyed}
use rex_sm.Node.Read.{get_state-find_node, get_parent_id-parent_in}
use rex_sm.Node.Update.{
  with_state_at, update_lem, update_and_get_parent_id_lem, with_state_at-IsKeyed, has-with_state_at,
  parent_in-with_state_at, state_in_self, state_in_other,
}

module _ {ℓ} {Key S : Type ℓ} (dec : Discrete Key) where
  -- What a tree looks like once `x` has the state `s` and nothing else is changed.
  pub record Updated (x : Key) (s : S) (n n' : Node Key S) : Type ℓ where
    pub keyed : IsKeyed dec n'
    pub same_ids : (y : Key) → has dec y n' ≡ has dec y n
    pub same_parents : (y : Key) → get_parent_id dec n' y ≡ get_parent_id dec n y
    pub states :
        (y : Key) → get_state dec n' y ≡ (if eqb dec x y then ok (some s) else get_state dec n y)

  pub with_state_at-Updated :
      (n : Node Key S) (x : Key) (s : S)
      → IsKeyed dec n
      → has dec x n ≡ true
      → Updated x s n (with_state_at dec x s n)
  with_state_at-Updated n x s k h =
      let k' = with_state_at-IsKeyed dec x s n k in
      record {
        keyed = k';
        same_ids = λ y. has-with_state_at dec x s y n;
        same_parents = λ y. rw (
          get_parent_id-parent_in dec y _ k',
          get_parent_id-parent_in dec y n k,
          parent_in-with_state_at dec x s y n,
        );
        states = λ y.
            written_at dec x y (get_state dec (with_state_at dec x s n))
              (rw (get_state-find_node dec x _ k', state_in_self dec x s n h))
              (λ ne. rw (
                get_state-find_node dec y _ k',
                get_state-find_node dec y n k,
                state_in_other dec x s y ne n,
              ));
      }

  module _ (new_state : Key → S) (n : Node Key S) (x : Key) (s : S) (k : IsKeyed dec n) where
    -- On a keyed tree that holds the id, `update` returns, writes the state of that node, and
    -- changes no other state, no id and no parent.
    pub update-Updated :
        has dec x n ≡ true
        → let (n', r) = update dec new_state n (record { id = x; state = s }) in
          (r ≡ ok tt) × Updated x s n n'
    update-Updated h =
        rw (update_lem dec new_state n x s k h) (refl, with_state_at-Updated n x s k h)

    -- On a keyed tree that holds the id, `update_and_get_parent_id` returns what `get_parent_id`
    -- does, writes the state of that node, and changes no other state, no id and no parent.
    pub update_and_get_parent_id-Updated :
        has dec x n ≡ true
        → let (n', r) = update_and_get_parent_id dec new_state n (record { id = x; state = s }) in
          (r ≡ get_parent_id dec n x) × Updated x s n n'
    update_and_get_parent_id-Updated h =
        rw (update_and_get_parent_id_lem dec new_state n x s k h)
          (rw (get_parent_id-parent_in dec x n k) refl, with_state_at-Updated n x s k h)

  by_id_missing :
      (n : Node Key S) (x : Key)
      → IsKeyed dec n
      → has dec x n ≡ false
      → by_id dec (zipper n) x ≡ panic
  unfolding by_id by_id_loop zipper has size
  by_id_missing (node i s ks cs) x k h =
      let absent : has_any dec x cs ≡ false = ground arith in
      let ne : eqb dec i x ≡ false = ground arith in rw (k.0 x, absent, ne)

  -- On a keyed tree that does not hold the id (for `insert`: the parent's id) both operations
  -- panic, and what stays is a fresh node with the root's id: the states are lost.
  pub edit_missing :
      (new_state : Key → S) (n : Node Key S) (x i : Key) (s : S)
      → IsKeyed dec n
      → has dec x n ≡ false
      → (update dec new_state n (record { id = x; state = s }) ≡ (new new_state (id n), panic))
        × (insert dec new_state n (record { parent_id = some x; id = i })
            ≡ (new new_state (id n), panic))
  unfolding update insert
  edit_missing new_state n x i s k h = let e = by_id_missing n x k h in (rw e, rw e)
