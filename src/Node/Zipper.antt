-- ===== src/Node/Zipper.antt =====
-- src/node.rs: `Zipper`, a node in focus with the way back to the root.
use rex_sm.Base.{
  ℕ, zero, suc, ◌-◌, Option, none, some, Result, ok, panic, spent, ◌>>=◌, ◌>>◌, unwrap, assert,
  if◌then◌else◌, eqb, contains, set_insert, length, push, swap_remove, swap,
}
use rex_sm.Node.Tree.{
  Node, id, descendant_keys, children, with_state, with_keys, with_children, size, new, child_idx,
}

-- `Option<Box<Zipper>>`: `boxed node parent self_idx` is the zipper of the parent.
pub data Parent {ℓ} (Key S : Type ℓ) : Type ℓ where
  root : Parent Key S
  boxed : Node Key S → Parent Key S → ℕ → Parent Key S

pub record Zipper {ℓ} (Key S : Type ℓ) : Type ℓ where
  pub node : Node Key S
  pub parent : Parent Key S
  pub self_idx : ℕ

module _ {ℓ} {Key S : Type ℓ} where
  unfoldable pub zipper : Node Key S → Zipper Key S
  zipper n = record { node = n; parent = root; self_idx = 0 }

  unfoldable pub child : Zipper Key S → ℕ → Result (Zipper Key S)
  child z idx = do
    (c, rest) ← swap_remove (children z.node) idx
    ok (record {
      node = c;
      parent = boxed (with_children rest z.node) z.parent z.self_idx;
      self_idx = idx;
    })

  unfoldable pub set_state : Zipper Key S → S → Zipper Key S
  set_state z s = record z { node = with_state s z.node }

  unfoldable pub insert_child : (Key → S) → Zipper Key S → Key → Zipper Key S
  insert_child new_state z i = record z {
    node = with_children (push (children z.node) (new new_state i)) z.node;
  }

  -- The body of `parent`: the child goes back to its index among the parent's children.
  unfoldable pub attach : Node Key S → Node Key S → ℕ → Result (Node Key S)
  attach p n idx =
      let cs = push (children p) n in do cs' ← swap cs idx (length cs - 1); ok (with_children cs' p)

  unfoldable pub go_up : Node Key S → Parent Key S → ℕ → Result (Zipper Key S)
  unfolding attach
  go_up n root idx = panic
  go_up n (boxed p above i) idx = do
    p' ← attach p n idx
    ok (record { node = p'; parent = above; self_idx = i })

  unfoldable pub parent : Zipper Key S → Result (Zipper Key S)
  unfolding go_up
  parent z = go_up z.node z.parent z.self_idx

  -- `while self.parent.is_some()`: `visit` is what the loop does to the node of each parent.
  unfoldable pub climb :
      (Node Key S → Node Key S) → Node Key S → Parent Key S → ℕ → Result (Node Key S)
  climb visit n root idx = ok n
  climb visit n (boxed p above i) idx = do p' ← attach p n idx; climb visit (visit p') above i

  unfoldable pub finish_update : Zipper Key S → Result (Node Key S)
  unfolding climb
  finish_update z = climb (λ n. n) z.node z.parent z.self_idx

  unfoldable pub parent_id : Parent Key S → Option Key
  parent_id root = none
  parent_id (boxed p above i) = some (id p)

  unfoldable pub finish_update_parent_id : Zipper Key S → Result (Option Key × Node Key S)
  unfolding finish_update parent_id
  finish_update_parent_id z = do n ← finish_update z; ok (parent_id z.parent, n)

module _ {ℓ} {Key S : Type ℓ} (dec : Discrete Key) where
  -- The loop of `by_id`.
  unfoldable pub by_id_loop : ℕ → Zipper Key S → Key → Result (Zipper Key S)
  by_id_loop zero z x = spent
  by_id_loop (suc fuel) z x =
      let next = (do
        idx ← unwrap (child_idx dec z.node x)
        z' ← child z idx
        by_id_loop fuel z' x) in
      if contains dec x (descendant_keys z.node) then next else ok z

  unfoldable pub by_id : Zipper Key S → Key → Result (Zipper Key S)
  unfolding by_id_loop
  by_id z x = do z' ← by_id_loop (size z.node) z x; assert (eqb dec (id z'.node) x); ok z'

  abbrev pub add_key : Key → Node Key S → Node Key S
  add_key x n = with_keys (set_insert dec x (descendant_keys n)) n

  unfoldable pub finish_insert : Zipper Key S → Key → Result (Node Key S)
  unfolding climb
  finish_insert z x = climb (add_key x) (add_key x z.node) z.parent z.self_idx
