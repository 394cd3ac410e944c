-- ===== src/Tests/Games.antt =====
-- A witness for the game: a ping state below a menu state is done, and is sent a packet.
use rex_sm.Base.{ℕ, ◌≡◌, [], refl, ◌∙◌, true, false, none, some, ok, eqb_self, ℕ_discrete}
use rex_sm.Kind.{StateId, id_dec, is_nil, is_terminal}
use rex_sm.Storage.Store
use rex_sm.Storage.Linked.{IsLinked, peek_state, peek_parent}
use rex_sm.Manager.World.{World}
use rex_sm.Manager.World
use rex_sm.Manager.Machine.{create_tree, new_child, update_state_and_signal}
use rex_sm.Manager.States.{update_state_and_signal-Written}
use rex_sm.Manager.Created.{create_tree-Added, new_child-Added}
use rex_sm.Game.Types.{
  Game, ping, menu, Game-discrete, GameState, ping_state, PingState, PingInput, GameInput,
  ping_input, completed_state, as_ref,
}
use rex_sm.Game.Machines.{R, ping_process, pong_process, menu_process}
use rex_sm.Game.Terminal.{process-is_terminal}

abbrev pub menu_id : StateId Game ℕ
menu_id = record { kind = menu; uuid = 1 }

abbrev pub ping_id : StateId Game ℕ
ping_id = record { kind = ping; uuid = 2 }

abbrev pub empty_game : World (R ℕ ℕ_discrete 0)
empty_game = record {
  signal_queue = record {
    front_values = [];
    back_values = [];
    rx_notifiers = [];
    runtime = record { flags = []; woken = [] };
  };
  notification_queue = record {
    front_values = [];
    back_values = [];
    rx_notifiers = [];
    runtime = record { flags = []; woken = [] };
  };
  state_store = record { trees = λ i. none; heap = [] };
}

pub empty_game-IsLinked : IsLinked (id_dec (R ℕ ℕ_discrete 0)) empty_game.state_store
empty_game-IsLinked = record { linked = λ i a e. cc; indexed = λ a n i e h. cc }

pub some_menu : is_nil (R ℕ ℕ_discrete 0) menu_id ≡ false
unfolding is_nil ℕ_discrete
some_menu = refl

some_ping : is_nil (R ℕ ℕ_discrete 0) ping_id ≡ false
unfolding is_nil ℕ_discrete
some_ping = refl

abbrev pub menu_only : World (R ℕ ℕ_discrete 0)
menu_only = (create_tree (R ℕ ℕ_discrete 0) menu_id empty_game).0

pub menu_only-IsLinked : IsLinked (id_dec (R ℕ ℕ_discrete 0)) menu_only.state_store
menu_only-IsLinked =
    (create_tree-Added (R ℕ ℕ_discrete 0) empty_game menu_id some_menu empty_game-IsLinked
      refl).1.store_linked

pub menu_at : menu_only.state_store.trees menu_id ≡ some 0
unfolding create_tree World.insert_ref Store.insert_ref is_nil ℕ_discrete id_dec Store.alloc
    Game-discrete
menu_at = refl

ping_fresh : menu_only.state_store.trees ping_id ≡ none
unfolding create_tree World.insert_ref Store.insert_ref is_nil ℕ_discrete id_dec Store.alloc
    Game-discrete
ping_fresh = refl

abbrev pub with_ping : World (R ℕ ℕ_discrete 0)
with_ping = (new_child (R ℕ ℕ_discrete 0) menu_id ping_id menu_only).0

ping_at : with_ping.state_store.trees ping_id ≡ some 0
unfolding create_tree new_child World.get_tree Store.get_tree is_nil ℕ_discrete World.insert_ref
    Store.insert_ref id_dec World.with_lock Store.alloc Game-discrete
ping_at = refl

abbrev ping_done : GameState
ping_done = ping_state PingState.done

abbrev over : World (R ℕ ℕ_discrete 0)
over = (update_state_and_signal (R ℕ ℕ_discrete 0) ping_id ping_done with_ping).0

pub with_ping-IsLinked : IsLinked (id_dec (R ℕ ℕ_discrete 0)) with_ping.state_store
with_ping-IsLinked =
    (new_child-Added (R ℕ ℕ_discrete 0) menu_only menu_id 0 some_menu menu_only-IsLinked menu_at
      ping_id some_ping ping_fresh).1.store_linked

ping_parent :
    peek_parent (id_dec (R ℕ ℕ_discrete 0)) with_ping.state_store ping_id ≡ ok (some menu_id)
ping_parent =
    (new_child-Added (R ℕ ℕ_discrete 0) menu_only menu_id 0 some_menu menu_only-IsLinked menu_at
        ping_id some_ping ping_fresh).1.parents
      ping_id
    ∙ rw (eqb_self (id_dec (R ℕ ℕ_discrete 0)) ping_id)

over-IsLinked : IsLinked (id_dec (R ℕ ℕ_discrete 0)) over.state_store
over-IsLinked =
    (update_state_and_signal-Written (R ℕ ℕ_discrete 0) with_ping ping_id 0 some_ping
      with_ping-IsLinked ping_at ping_done).1.store_linked

over_state : peek_state (id_dec (R ℕ ℕ_discrete 0)) over.state_store ping_id ≡ ok (some ping_done)
over_state =
    (update_state_and_signal-Written (R ℕ ℕ_discrete 0) with_ping ping_id 0 some_ping
        with_ping-IsLinked ping_at ping_done).1.states
      ping_id
    ∙ rw (eqb_self (id_dec (R ℕ ℕ_discrete 0)) ping_id)

over_parent : peek_parent (id_dec (R ℕ ℕ_discrete 0)) over.state_store ping_id ≡ ok (some menu_id)
over_parent =
    (update_state_and_signal-Written (R ℕ ℕ_discrete 0) with_ping ping_id 0 some_ping
        with_ping-IsLinked ping_at ping_done).1.parents
      ping_id
    ∙ ping_parent

ping_done_ends : is_terminal (R ℕ ℕ_discrete 0) ping_done ≡ true
unfolding is_terminal completed_state as_ref
ping_done_ends = rw (eqb_self (R ℕ ℕ_discrete 0).state_dec ping_done)

abbrev late_packet : GameInput ℕ
late_packet = ping_input (PingInput.packet (record { msg = 5; sender = menu_id; who_holds = none }))

process-is_terminal_example :
    (ping_process ℕ ℕ_discrete 0 100 ping_id late_packet over ≡ (over, ok tt))
    × (pong_process ℕ ℕ_discrete 0 100 ping_id late_packet over ≡ (over, ok tt))
    × (menu_process ℕ ℕ_discrete 0 7 8 ping_id late_packet over ≡ (over, ok tt))
process-is_terminal_example =
    process-is_terminal ℕ ℕ_discrete 0 over ping_id ping_done some_ping over-IsLinked over_state
      ping_done_ends 100 7 8 menu_id late_packet over_parent
