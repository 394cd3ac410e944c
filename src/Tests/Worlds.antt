-- ===== src/Tests/Worlds.antt =====
-- Data for the witnesses: kinds, states and inputs are numbers, a parent takes a state as its input.
use rex_sm.Base.{ℕ, ◌≡◌, refl, false, eqb_self, ◌∙◌, none, some, [], ok, ℕ_discrete}
use rex_sm.Kind.{Rex, StateId, Key, id_dec, is_nil}
use rex_sm.Storage.Store
use rex_sm.Manager.World
use rex_sm.Storage.Linked.{IsLinked, peek_parent}
use rex_sm.Timeout.Request.{UnaryRequest}
use rex_sm.Manager.World.{World}
use rex_sm.Manager.Machine.{create_tree, new_child}
use rex_sm.Manager.Dispatch.{StateMachine}
use rex_sm.Manager.Created.{create_tree-Added, new_child-Added}

abbrev pub numbers : Rex
numbers = record {
  Kind = ℕ;
  Uuid = ℕ;
  State = ℕ;
  Input = ℕ;
  Message = UnaryRequest (StateId ℕ ℕ) ℕ;
  Topic = ℕ;
  Item = ℕ;
  kind_dec = ℕ_discrete;
  uuid_dec = ℕ_discrete;
  state_dec = ℕ_discrete;
  topic_dec = ℕ_discrete;
  nil_uuid = 0;
  new_state = λ k. 0;
  failed_state = λ k. 1;
  completed_state = λ k. 2;
  as_ref = λ s. 5;
  state_input = λ k s. some s;
  timeout_input = λ k now. some now;
  return_item = λ k item. some item;
  get_topic = λ m. 0;
  from_request = λ r. r;
  try_request = λ m. some m;
}

abbrev pub root_id : Key numbers
root_id = record { kind = 5; uuid = 1 }

abbrev pub child_id : Key numbers
child_id = record { kind = 6; uuid = 2 }

abbrev pub empty_world : World numbers
empty_world = record {
  signal_queue = record {
    front_values = [];
    back_values = [];
    rx_notifiers = [];
    runtime = record { flags = []; woken = [] };
  };
  notification_queue = record {
    front_values = [];
    back_values = [];
    rx_notifiers = [];
    runtime = record { flags = []; woken = [] };
  };
  state_store = record { trees = λ i. none; heap = [] };
}

pub empty_world-IsLinked : IsLinked (id_dec numbers) empty_world.state_store
empty_world-IsLinked = record { linked = λ i a e. cc; indexed = λ a n i e h. cc }

pub some_root : is_nil numbers root_id ≡ false
unfolding is_nil ℕ_discrete
some_root = refl

pub some_child : is_nil numbers child_id ≡ false
unfolding is_nil ℕ_discrete
some_child = refl

abbrev pub one_tree : World numbers
one_tree = (create_tree numbers root_id empty_world).0

pub one_tree-IsLinked : IsLinked (id_dec numbers) one_tree.state_store
one_tree-IsLinked =
    (create_tree-Added numbers empty_world root_id some_root empty_world-IsLinked
      refl).1.store_linked

pub root_at : one_tree.state_store.trees root_id ≡ some 0
unfolding create_tree World.insert_ref Store.insert_ref is_nil ℕ_discrete id_dec Store.alloc
root_at = refl

pub child_fresh : one_tree.state_store.trees child_id ≡ none
unfolding create_tree World.insert_ref Store.insert_ref is_nil ℕ_discrete id_dec Store.alloc
child_fresh = refl

abbrev pub family : World numbers
family = (new_child numbers root_id child_id one_tree).0

pub family-IsLinked : IsLinked (id_dec numbers) family.state_store
family-IsLinked =
    (new_child-Added numbers one_tree root_id 0 some_root one_tree-IsLinked root_at child_id
      some_child child_fresh).1.store_linked

pub child_at : family.state_store.trees child_id ≡ some 0
unfolding create_tree new_child World.get_tree Store.get_tree is_nil ℕ_discrete World.insert_ref
    Store.insert_ref id_dec World.with_lock Store.alloc
child_at = refl

pub child_parent : peek_parent (id_dec numbers) family.state_store child_id ≡ ok (some root_id)
unfolding is_nil
child_parent =
    (new_child-Added numbers one_tree root_id 0 some_root one_tree-IsLinked root_at child_id
        some_child child_fresh).1.parents
      child_id
    ∙ rw (eqb_self (id_dec numbers) child_id)

-- a machine that returns and does nothing, for each of two kinds
abbrev pub machine : ℕ → StateMachine numbers
machine k = record { kind = k; process = λ i input w. (w, ok tt) }
