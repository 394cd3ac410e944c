-- ===== src/Game/Machines.antt =====
-- src/manager.rs, `mod tests`: the three state machines. `now` is the instant of the call, and the
-- two random ids of a new game are arguments; the record of failures is kept by `Cases.Games`.
use rex_sm.Base.{
  ℕ, ◌+◌, Bool, false, Option, none, some, List, [], ◌∷◌, ◌++◌, Result, if◌then◌else◌, ltb, natb,
  eqb,
}
use rex_sm.Kind.{Rex, StateId, is_terminal}
use rex_sm.Queue.Deque.{push_back}
use rex_sm.Node.Tree.{Node, node, Nodes, nil, cons}
use rex_sm.Node.Edit.{update_all_fn}
use rex_sm.Node.Visit.{rewrite_state}
use rex_sm.Manager.Action.{Action, ◌>>=◌, ◌>>◌, return, lift, unwrap, modify}
use rex_sm.Manager.World.{World, get_tree, lock, with_lock, get_state, get_parent_id, priority_send}
use rex_sm.Manager.World
use rex_sm.Manager.Machine.{
  new_child, update, create_tree, complete, fail, set_timeout, return_in, cancel_timeout,
}
use rex_sm.Manager.Dispatch.{StateMachine}
use rex_sm.Game.Types.{
  Game, ping, pong, menu, Game-discrete, GameState, ping_state, pong_state, PingState, PongState,
  MenuInput, play, ping_pong_complete, failed_ping, failed_pong, PingInput, PongInput, GameInput,
  ping_input, pong_input, menu_input, Packet, WhoHolds, failed_state, as_ref, game,
}

-- `TEST_TIMEOUT`
abbrev pub test_timeout : ℕ
test_timeout = 11

abbrev pub holds : WhoHolds → Game → Bool
holds none k = false
holds (some j) k = eqb Game-discrete j k

module _ (U : Type 0) (uuid_dec : Discrete U) (nil_uuid : U) where
  abbrev pub R : Rex
  R = game U uuid_dec nil_uuid

  -- `ctx.signal_queue.push_back`
  unfoldable pub push_signal : StateId Game U → GameInput U → Action (World R) (Unit {0})
  push_signal i input =
      modify (λ w. record w {
        signal_queue = push_back w.signal_queue (record { id = i; input = input });
      })

  abbrev pub ignore : {A : Type 0} → Action (World R) A → Action (World R) (Unit {0})
  ignore m = m >>= λ a. return tt

  -- What a recipient of the other kind takes a packet as; `Menu` is `unreachable!`.
  unfoldable pub return_packet : StateId Game U → Packet U → Action (World R) (Unit {0})
  unfolding push_signal
  return_packet i packet =
      let packet' = record packet { sender = i } in
      elim i.kind [
        | ping ↦ push_signal packet.sender (pong_input (PongInput.packet packet'))
        | pong ↦ push_signal packet.sender (ping_input (PingInput.packet packet'))
        | menu ↦ lift Result.panic
      ]

  -- the ids of a tree in the order in which `update_all_fn` visits them
  unfoldable mutual
    pub visited : Node (StateId Game U) GameState → List (StateId Game U)
    visited (node i s ks cs) = visited_all cs ++ (i ∷ [])

    pub visited_all : Nodes (StateId Game U) GameState → List (StateId Game U)
    visited_all nil = []
    visited_all (cons n ns) = visited n ++ visited_all ns

  unfoldable pub cancel_all : List (StateId Game U) → Action (World R) (Unit {0})
  cancel_all [] = return tt
  cancel_all (i ∷ is) = cancel_timeout R i >> cancel_all is

  abbrev pub failed_of : GameState → GameState
  failed_of s = failed_state (as_ref s)

  -- a failure of one of the children: all states of the tree fail, all timeouts are cancelled
  unfoldable pub fail_all : StateId Game U → Action (World R) (Unit {0})
  unfolding visited cancel_all
  fail_all i = do
    tree ← get_tree R i
    a ← unwrap tree
    n ← lock R a
    with_lock R a (λ m. update_all_fn (rewrite_state failed_of) (World.new_state R) m)
    cancel_all (visited n)

  unfoldable pub start_game : StateId Game U → WhoHolds → U → U → Action (World R) (Unit {0})
  unfolding push_signal
  start_game i who_holds ping_uuid pong_uuid =
      let ping_id : StateId Game U = record { kind = ping; uuid = ping_uuid } in
      let pong_id : StateId Game U = record { kind = pong; uuid = pong_uuid } in
      do
        create_tree R i
        new_child R i ping_id
        new_child R i pong_id
        push_signal ping_id (ping_input (PingInput.start_sending pong_id who_holds))

  unfoldable pub menu_step : U → U → StateId Game U → MenuInput → Action (World R) (Unit {0})
  unfolding fail_all start_game
  menu_step ping_uuid pong_uuid i (play who_holds) = start_game i who_holds ping_uuid pong_uuid
  menu_step ping_uuid pong_uuid i ping_pong_complete = ignore (complete R i)
  menu_step ping_uuid pong_uuid i failed_ping = fail_all i
  menu_step ping_uuid pong_uuid i failed_pong = fail_all i

  abbrev pub ends : Option GameState → Bool
  ends none = false
  ends (some s) = is_terminal R s

  -- `MenuStateMachine::process`
  unfoldable pub menu_process : U → U → StateId Game U → GameInput U → Action (World R) (Unit {0})
  unfolding menu_step
  menu_process ping_uuid pong_uuid i (ping_input input) = return tt
  menu_process ping_uuid pong_uuid i (pong_input input) = return tt
  menu_process ping_uuid pong_uuid i (menu_input input) = do
    state ← get_state R i
    if ends state then return tt else menu_step ping_uuid pong_uuid i input

  -- a packet that is kept for a while, or sent back
  abbrev pub hold_or_return : ℕ → Game → StateId Game U → Packet U → Action (World R) (Unit {0})
  hold_or_return now k i packet =
      if holds packet.who_holds k
      then return_in R now i packet packet.msg
      else return_packet i packet

  -- `msg += 5`, of numbers that have no largest; the u64 of the source overflows from 2^64 - 5 on.
  abbrev pub bump : Packet U → Packet U
  bump packet = record packet { msg = packet.msg + 5 }

  unfoldable pub ping_step : ℕ → StateId Game U → PingInput U → Action (World R) (Unit {0})
  unfolding return_packet push_signal
  ping_step now i (PingInput.start_sending pong_id who_holds) = do
    update R i (ping_state PingState.sending)
    push_signal pong_id
        (pong_input (PongInput.packet (record { msg = 0; sender = i; who_holds = who_holds })))
  ping_step now i (PingInput.packet packet) =
      if ltb packet.msg 25
      then (do set_timeout R now i test_timeout; hold_or_return now ping i (bump packet))
      else (do ignore (complete R i); cancel_timeout R i)
  ping_step now i (PingInput.returned packet) = do
    set_timeout R now i test_timeout
    return_packet i packet
  ping_step now i (PingInput.recv_timeout instant) = ignore (fail R i)

  -- `PingStateMachine::process`
  unfoldable pub ping_process : ℕ → StateId Game U → GameInput U → Action (World R) (Unit {0})
  unfolding ping_step
  ping_process now i (pong_input input) = return tt
  ping_process now i (menu_input input) = return tt
  ping_process now i (ping_input input) = do
    parent ← get_parent_id R i
    parent_id ← unwrap parent
    state ← get_state R i
    s ← unwrap state
    if is_terminal R s then return tt else ping_step now i input

  unfoldable pub pong_step : ℕ → StateId Game U → PongInput U → Action (World R) (Unit {0})
  unfolding return_packet push_signal
  pong_step now i (PongInput.packet packet) =
      if ltb packet.msg 20
      then (do
        set_timeout R now i test_timeout
        (if natb packet.msg 0 then update R i (pong_state PongState.responding) else return tt)
        hold_or_return now pong i (bump packet))
      else (do
        ignore (complete R i)
        cancel_timeout R i
        push_signal packet.sender
            (ping_input (PingInput.packet (record (bump packet) { sender = i }))))
  pong_step now i (PongInput.returned packet) = do
    set_timeout R now i test_timeout
    return_packet i packet
  pong_step now i (PongInput.recv_timeout instant) = ignore (fail R i)

  -- `PongStateMachine::process`
  unfoldable pub pong_process : ℕ → StateId Game U → GameInput U → Action (World R) (Unit {0})
  unfolding pong_step
  pong_process now i (ping_input input) = return tt
  pong_process now i (menu_input input) = return tt
  pong_process now i (pong_input input) = do
    state ← get_state R i
    s ← unwrap state
    let rest = (do parent ← get_parent_id R i; parent_id ← unwrap parent; pong_step now i input)
    if is_terminal R s then return tt else rest

  unfoldable pub machines : U → U → ℕ → List (StateMachine R)
  machines ping_uuid pong_uuid now =
      record { kind = menu; process = menu_process ping_uuid pong_uuid }
      ∷ record { kind = ping; process = ping_process now }
      ∷ record { kind = pong; process = pong_process now }
      ∷ []
