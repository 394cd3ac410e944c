-- ===== src/Manager/World.antt =====
-- src/manager.rs: `Signal`, `SmContext` and its methods. The three shared objects that a context
-- holds (`Arc`s of the two queues and of the store) are the `World`; a context is its id.
use mathlib.Core.Option
use rex_sm.Base.{ℕ, Bool, true, false, Option, none, some, Result, ok, panic, spent, get_elem?, set}
use rex_sm.Kind.{Rex, StateId, id_dec, is_nil}
use rex_sm.Queue.Deque.{StreamableDeque, push_front, push_back}
use rex_sm.Node.Tree.{Node}
use rex_sm.Node.Tree
use rex_sm.Storage.Store.{StateStore}
use rex_sm.Storage.Store
use rex_sm.Timeout.Manager.{Signal}
use rex_sm.Manager.Action.{Action, ◌>>=◌, ◌>>◌, return, lift, unwrap, modify, gets}

module _ (R : Rex) where
  abbrev pub Key : Type 0
  Key = StateId R.Kind R.Uuid

  pub record World : Type 0 where
    pub signal_queue : StreamableDeque (Signal (StateId R.Kind R.Uuid) R.Input)
    pub notification_queue : StreamableDeque R.Message
    pub state_store : StateStore (StateId R.Kind R.Uuid) R.State

  -- the new state of the id's kind, through `Deref`
  abbrev pub new_state : Key → R.State
  new_state i = R.new_state i.kind

  -- `Signal::state_change`
  unfoldable pub state_change : Key → R.State → Option (Signal Key R.Input)
  state_change i state =
      Option.map (λ input. record { id = i; input = input }) (R.state_input i.kind state)

  abbrev pub push_signal : Option (Signal Key R.Input) → World → World
  push_signal none w = w
  push_signal (some sig) w = record w { signal_queue = push_back w.signal_queue sig }

  -- `SignalExt::signal_state_change`
  unfoldable pub signal_state_change : Key → R.State → Action World (Unit {0})
  unfolding state_change
  signal_state_change i state = modify (push_signal (state_change i state))

  unfoldable pub get_tree : Key → Action World (Option ℕ)
  get_tree i = gets (λ w. Store.get_tree (is_nil R) w.state_store i)

  -- The tree in a cell, under its lock.
  unfoldable pub lock : ℕ → Action World (Node Key R.State)
  lock a w = unwrap (get_elem? w.state_store.heap a) w

  -- A call of a method of the locked tree that changes it.
  unfoldable pub with_lock :
      {A : Type 0} → ℕ → (Node Key R.State → Node Key R.State × Result A) → Action World A
  unfolding lock
  with_lock a f = do
    n ← lock a
    modify (λ w. record w {
      state_store = record (w.state_store) { heap = set w.state_store.heap a (f n).0 };
    })
    lift (f n).1

  unfoldable pub insert_ref : Key → ℕ → Action World (Unit {0})
  insert_ref i a w = elim (Store.insert_ref (is_nil R) (id_dec R) w.state_store i a) [
    | ok s ↦ (record w { state_store = s }, ok tt)
    | panic ↦ (w, panic)
    | spent ↦ (w, spent)
  ]

  -- `SmContext::get_state`
  unfoldable pub get_state : Key → Action World (Option R.State)
  unfolding get_tree lock
  get_state i = do
    tree ← get_tree i
    elim tree [ none ↦ return none | some a ↦ lock a >>= λ n. lift (Tree.get_state (id_dec R) n i) ]

  -- `SmContext::has_state`
  unfoldable pub has_state : Key → Action World Bool
  unfolding get_tree
  has_state i = do tree ← get_tree i; elim tree [ none ↦ return false | some a ↦ return true ]

  -- `SmContext::get_parent_id`
  unfoldable pub get_parent_id : Key → Action World (Option Key)
  unfolding get_tree lock
  get_parent_id i = do
    tree ← get_tree i
    elim tree [
      | none ↦ return none
      | some a ↦ lock a >>= λ n. lift (Tree.get_parent_id (id_dec R) n i)
    ]

  -- `SmContext::has_parent`
  unfoldable pub has_parent : Key → Action World Bool
  unfolding get_parent_id
  has_parent i = do
    parent ← get_parent_id i
    elim parent [ none ↦ return false | some p ↦ return true ]

  -- `SmContext::signal_self`
  unfoldable pub signal_self : Key → R.Input → Action World (Unit {0})
  signal_self i input = modify (λ w. record w {
    signal_queue = push_front w.signal_queue (record { id = i; input = input });
  })

  -- `NotificationQueue::send` and `priority_send`; `SmContext::notify` is the first.
  unfoldable pub send : R.Message → Action World (Unit {0})
  send m = modify (λ w. record w { notification_queue = push_back w.notification_queue m })

  unfoldable pub priority_send : R.Message → Action World (Unit {0})
  priority_send m =
      modify (λ w. record w { notification_queue = push_front w.notification_queue m })
