-- ===== src/Tests/Plays.antt =====
-- The tests of the game on concrete choices of the runtime.
use rex_sm.Kind
use rex_sm.Timeout.Manager
use rex_sm.Timeout.Request
use rex_sm.Storage.Store
use rex_sm.Node.Visit
use rex_sm.Node.Edit
use rex_sm.Node.Zipper
use rex_sm.Game.Types
use rex_sm.Manager.Dispatch
use rex_sm.Manager.Machine
use rex_sm.Manager.World
use rex_sm.Base
use rex_sm.Base.{
  ℕ, suc, ◌≡◌, refl, Bool, true, false, Option, none, some, List, [], ◌∷◌, Result, ok, panic, spent,
  ◌>>=◌, ◌>>◌, unwrap, assert, eqb, if◌then◌else◌, length, map_get, natb, ◌&&◌, ℕ_discrete,
}
use rex_sm.Kind.{Rex, StateId, id_dec, is_terminal}
use rex_sm.Queue.Deque.{StreamableDeque, pop_front, push_back}
use rex_sm.Queue.Deque
use rex_sm.Timeout.Ledger.{Ledger}
use rex_sm.Timeout.Ledger
use rex_sm.Timeout.Manager.{Signal, receive, tick}
use rex_sm.Manager.World.{World, get_tree, lock, get_state}
use rex_sm.Node.Tree
use rex_sm.Node.Tree.{Node, node, cons, nil}
use rex_sm.Manager.Dispatch.{new_manager, turn}
use rex_sm.Game.Types.{
  Game, ping, pong, menu, Game-discrete, GameState, GameState-discrete, MenuInput, play,
  ping_pong_complete, failed_ping, failed_pong, GameInput, ping_input, pong_input, menu_input,
  Packet, WhoHolds, failed_state, completed_state, timeout_input, return_item,
}
use rex_sm.Game.Machines.{machines}
use rex_sm.Game.Machines
use rex_sm.Cases.Games.{Choice, turns, delivers, ticks, pong_timeout, ping_timeout, state_machine}

abbrev until_110 : List Choice
until_110 =
    turns 100
    ∷ turns 101
    ∷ turns 102
    ∷ turns 103
    ∷ turns 104
    ∷ turns 105
    ∷ turns 106
    ∷ turns 107
    ∷ turns 108
    ∷ turns 109
    ∷ turns 110
    ∷ []

-- Ping sleeps on the packet for 10 ms, and the tick comes when Pong, who waits for it, is out of time.
abbrev ping_sleeps : List Choice
ping_sleeps =
    turns 100
    ∷ turns 100
    ∷ turns 100
    ∷ delivers
    ∷ turns 101
    ∷ delivers
    ∷ delivers
    ∷ ticks 110
    ∷ ticks 112
    ∷ turns 112
    ∷ turns 112
    ∷ turns 112
    ∷ turns 112
    ∷ turns 112
    ∷ []

-- Pong sleeps on the packet for 5 ms, which Ping waits for, and then for 15 ms.
abbrev pong_sleeps : List Choice
pong_sleeps =
    turns 100
    ∷ turns 100
    ∷ turns 100
    ∷ delivers
    ∷ delivers
    ∷ ticks 106
    ∷ turns 106
    ∷ turns 106
    ∷ turns 107
    ∷ delivers
    ∷ delivers
    ∷ delivers
    ∷ delivers
    ∷ ticks 112
    ∷ ticks 118
    ∷ turns 118
    ∷ turns 118
    ∷ turns 118
    ∷ turns 118
    ∷ []

passes :
    (state_machine 1 2 3 until_110 ≡ ok tt)
    × (pong_timeout 1 2 3 ping_sleeps ≡ ok tt)
    × (ping_timeout 1 2 3 pong_sleeps ≡ ok tt)
unfolding state_machine pong_timeout ping_timeout ℕ_discrete World.state_change
    World.signal_state_change World.get_tree World.lock World.with_lock World.insert_ref
    World.get_state World.has_state World.get_parent_id World.has_parent World.signal_self
    World.send World.priority_send Machine.new_child Machine.update Machine.create_tree
    Machine.signal_parent Machine.update_state_and_signal Machine.fail Machine.complete
    Machine.set_timeout Machine.return_in Machine.cancel_timeout Dispatch.new_manager Dispatch.turn
    Dispatch.turns Types.Game-discrete Types.GameState-discrete Types.new_state Types.failed_state
    Types.completed_state Types.as_ref Types.menu_state_input Types.state_input Types.timeout_input
    Types.return_item Machines.push_signal Machines.return_packet Machines.visited
    Machines.visited_all Machines.cancel_all Machines.fail_all Machines.start_game
    Machines.menu_step Machines.menu_process Machines.ping_step Machines.ping_process
    Machines.pong_step Machines.pong_process Machines.machines Tree.size Tree.size_all Tree.new
    Tree.find_child Tree.child Tree.find_idx Tree.child_idx Tree.get_loop Tree.get Tree.get_state
    Tree.parent_loop Tree.get_parent_id Zipper.zipper Zipper.child Zipper.set_state
    Zipper.insert_child Zipper.attach Zipper.go_up Zipper.parent Zipper.climb Zipper.finish_update
    Zipper.parent_id Zipper.finish_update_parent_id Zipper.by_id_loop Zipper.by_id
    Zipper.finish_insert Edit.into_insert Edit.into_update Edit.insert Edit.update
    Edit.update_and_get_parent_id Edit.finish_update_fn Edit.finish_update_fn_all Edit.update_all_fn
    Visit.rewrite_state Visit.map_states Visit.map_states_all Store.empty Store.alloc Store.new_tree
    Store.get_tree Store.insert_ref Store.remove_ref Request.from_duration Request.from_millis
    Request.set_timeout_millis Request.set_timeout Request.cancel_timeout Request.retain_item
    Ledger.lint_instant Ledger.new Ledger.retain Ledger.with_key Ledger.remove_old
    Ledger.set_timeout Ledger.cancel_timeout Ledger.cancel_warns Manager.values Manager.apply_op
    Manager.receive Manager.fire Manager.fire_timers Manager.fire_items Manager.tick Deque.new
    Deque.notify_rx Deque.push_front Deque.push_back Deque.take_value Deque.pop_front
    Deque.poll_next Deque.drop Kind.id_dec Kind.nil Kind.is_nil Kind.is_terminal Base.tree_before
    Base.tree_from Base.tree_entry Base.tree_modify Base.set_insert Base.set_remove Base.contains
    Base.map_get Base.map_insert Base.swap Base.swap_remove
passes = (refl, refl, refl)
