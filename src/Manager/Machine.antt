-- ===== src/Manager/Machine.antt =====
-- src/manager.rs: the provided methods of `StateMachine` and `StateMachineExt`.
use rex_sm.Base.{ℕ, Option, none, some}
use rex_sm.Kind.{Rex, id_dec}
use rex_sm.Node.Tree
use rex_sm.Node.Edit
use rex_sm.Storage.Store
use rex_sm.Timeout.Request.{UnaryRequest}
use rex_sm.Timeout.Request
use rex_sm.Manager.Action.{Action, ◌>>=◌, ◌>>◌, return, unwrap}
use rex_sm.Manager.World.{
  Key, World, new_state, get_tree, with_lock, insert_ref, signal_state_change, priority_send,
}

module _ (R : Rex) where
  -- `StateMachine::new_child`
  unfoldable pub new_child : Key R → Key R → Action (World R) (Unit {0})
  new_child i child_id = do
    tree ← get_tree R i
    a ← unwrap tree
    insert_ref R child_id a
    with_lock R a
        (λ n. Edit.insert (id_dec R) (new_state R) n (record { parent_id = some i; id = child_id }))

  -- `StateMachine::update`
  unfoldable pub update : Key R → R.State → Action (World R) (Unit {0})
  update i state = do
    tree ← get_tree R i
    a ← unwrap tree
    with_lock R a (λ n. Edit.update (id_dec R) (new_state R) n (record { id = i; state = state }))

  -- `StateMachineExt::create_tree`
  unfoldable pub create_tree : Key R → Action (World R) (Unit {0})
  create_tree i w =
      let (s, a) = Store.alloc w.state_store (Tree.new (new_state R) i) in
      insert_ref R i a (record w { state_store = s })

  -- The end of `update_state_and_signal`: a parent is told of its child's state.
  unfoldable pub signal_parent : R.State → Option (Key R) → Action (World R) (Option (Key R))
  signal_parent state none = return none
  signal_parent state (some parent) = do signal_state_change R parent state; return (some parent)

  -- `StateMachineExt::update_state_and_signal`
  unfoldable pub update_state_and_signal : Key R → R.State → Action (World R) (Option (Key R))
  unfolding signal_parent
  update_state_and_signal i state = do
    tree ← get_tree R i
    a ← unwrap tree
    parent_id ← with_lock R a (λ n.
        Edit.update_and_get_parent_id (id_dec R) (new_state R) n (record { id = i; state = state }))
    signal_parent state parent_id

  -- `StateMachineExt::fail` and `complete`
  unfoldable pub fail : Key R → Action (World R) (Option (Key R))
  unfolding update_state_and_signal
  fail i = update_state_and_signal i (R.failed_state i.kind)

  unfoldable pub complete : Key R → Action (World R) (Option (Key R))
  unfolding update_state_and_signal
  complete i = update_state_and_signal i (R.completed_state i.kind)

  -- `StateMachineExt::set_timeout`, `return_in` and `cancel_timeout`, at the instant `now`
  unfoldable pub set_timeout : ℕ → Key R → ℕ → Action (World R) (Unit {0})
  set_timeout now i duration = priority_send R (R.from_request (Request.set_timeout now i duration))

  unfoldable pub return_in : ℕ → Key R → R.Item → ℕ → Action (World R) (Unit {0})
  return_in now i item duration =
      priority_send R (R.from_request (Request.retain_item now i item duration))

  unfoldable pub cancel_timeout : Key R → Action (World R) (Unit {0})
  cancel_timeout i = priority_send R (R.from_request (Request.cancel_timeout i))
