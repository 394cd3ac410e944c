-- ===== src/Node/Edit.antt =====
-- src/node.rs: the operations of `Node` that change the tree, by way of the zipper.
use rex_sm.Base.{Option, Result, ok, panic, spent, ◌>>=◌, unwrap}
use rex_sm.Node.Tree.{Node, node, Nodes, nil, cons, id, new}
use rex_sm.Node.Zipper.{
  Zipper, root, zipper, by_id, insert_child, set_state, finish_insert, finish_update,
  finish_update_parent_id,
}

pub record Insert {ℓ} (Key : Type ℓ) : Type ℓ where
  pub parent_id : Option Key
  pub id : Key

pub record Update {ℓ} (Key S : Type ℓ) : Type ℓ where
  pub id : Key
  pub state : S

module _ {ℓ} {Key S : Type ℓ} (dec : Discrete Key) (new_state : Key → S) where
  unfoldable pub into_insert : Node Key S → Insert Key → Result (Node Key S)
  into_insert n ins = do
    parent_id ← unwrap ins.parent_id
    z ← by_id dec (zipper n) parent_id
    finish_insert dec (insert_child new_state z ins.id) ins.id

  unfoldable pub into_update : Node Key S → Update Key S → Result (Node Key S)
  into_update n u = do z ← by_id dec (zipper n) u.id; finish_update (set_state z u.state)

  -- The two `mem::swap`s around a computation by value: where that panics, the fresh node stays.
  abbrev pub swap_in {κ} :
      {A : Type κ} → Node Key S → Result (A × Node Key S) → Node Key S × Result A
  swap_in n (ok (a, n')) = (n', ok a)
  swap_in n panic = (new new_state (id n), panic)
  swap_in n spent = (new new_state (id n), spent)

  unfoldable pub insert : Node Key S → Insert Key → Node Key S × Result (Unit {0})
  unfolding into_insert
  insert n ins = swap_in n (do n' ← into_insert n ins; ok (tt, n'))

  unfoldable pub update : Node Key S → Update Key S → Node Key S × Result (Unit {0})
  unfolding into_update
  update n u = swap_in n (do n' ← into_update n u; ok (tt, n'))

  unfoldable pub update_and_get_parent_id :
      Node Key S → Update Key S → Node Key S × Result (Option Key)
  update_and_get_parent_id n u =
      swap_in n (do z ← by_id dec (zipper n) u.id; finish_update_parent_id (set_state z u.state))

module _ {ℓ} {Key S : Type ℓ} (f : Zipper Key S → Result (Node Key S)) where
  unfoldable mutual
    -- `finish_update_fn` at the zipper of a node with no parent: the children first, each as a root.
    pub finish_update_fn : Node Key S → Result (Node Key S)
    finish_update_fn (node i s ks cs) = do
      cs' ← finish_update_fn_all cs
      f (record { node = node i s ks cs'; parent = root; self_idx = 0 })

    pub finish_update_fn_all : Nodes Key S → Result (Nodes Key S)
    finish_update_fn_all nil = ok nil
    finish_update_fn_all (cons n ns) = do
      n' ← finish_update_fn n
      ns' ← finish_update_fn_all ns
      ok (cons n' ns')

  unfoldable pub update_all_fn : (Key → S) → Node Key S → Node Key S × Result (Unit {0})
  unfolding finish_update_fn
  update_all_fn new_state n = elim (finish_update_fn n) [
    | ok n' ↦ (n', ok tt)
    | panic ↦ (new new_state (id n), panic)
    | spent ↦ (new new_state (id n), spent)
  ]
