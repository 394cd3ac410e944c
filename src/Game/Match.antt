-- ===== src/Game/Match.antt =====
-- A whole game in the signal loop, from `Play` to the terminal states.
use rex_sm.Base.{
  ℕ, zero, suc, ◌+◌, ◌≤◌, ◌<◌, ◌≡◌, refl, ap, sym, ◌∙◌, inl, inr, false, none, some, List, [], ◌∷◌,
  ok, map_get, collect, arith,
}
use rex_sm.Kind.{Rex, is_nil, is_terminal}
use rex_sm.Queue.Deque.{pop_front, take_value}
use rex_sm.Queue.Order.{contents, pop_front-contents}
use rex_sm.Manager.World.{World}
use rex_sm.Manager.Dispatch.{StateMachine, Machines, Turn, idle, handled, new_manager}
use rex_sm.Manager.Takes.{Takes}
use rex_sm.Manager.Chain.{Outcome, Outcome-next, Outcome-idle}
use rex_sm.Game.Types.{
  Game, ping, pong, menu, Game-discrete, GameState, GameState-discrete, new_state, completed_state,
  failed_state, as_ref, state_input, menu_state_input, PingState, ping_state, PongState, pong_state,
  ping_pong_complete, PingInput, PongInput, menu_input,
}
use rex_sm.Game.Machines.{R, machines, ping_process, pong_process, menu_process}
use rex_sm.Game.Phase.{Ids, id_at, Sig, with_state, news, Phase}
use rex_sm.Game.Volley.{
  loose, to_ping, to_pong, start-Takes, ping_packet-Takes, ping_last-Takes, pong_first-Takes,
  pong_packet-Takes, pong_last-Takes, menu_last-Takes,
}

-- `k` turns with a signal, and one without
abbrev pub handled_then : ℕ → List Turn
handled_then zero = idle ∷ []
handled_then (suc k) = handled ∷ handled_then k

module _ (U : Type 0) (uuid_dec : Discrete U) (nil_uuid : U) (ping_uuid pong_uuid : U)
    (now : ℕ) where
  abbrev G : Rex
  G = R U uuid_dec nil_uuid

  abbrev pub machine_at : Game → StateMachine G
  machine_at menu = record {
    kind = menu;
    process = menu_process U uuid_dec nil_uuid ping_uuid pong_uuid;
  }
  machine_at ping = record { kind = ping; process = ping_process U uuid_dec nil_uuid now }
  machine_at pong = record { kind = pong; process = pong_process U uuid_dec nil_uuid now }

  -- the table that the manager makes of the three machines
  abbrev pub table : Machines G
  table = (menu, machine_at menu) ∷ (ping, machine_at ping) ∷ (pong, machine_at pong) ∷ []

  pub table_lem : new_manager G (machines U uuid_dec nil_uuid ping_uuid pong_uuid now) ≡ ok table
  unfolding new_manager machines collect Game-discrete
  table_lem = refl

  pub map_get-table : (k : Game) → map_get Game-discrete table k ≡ some (machine_at k)
  unfolding map_get Game-discrete
  map_get-table menu = refl
  map_get-table ping = refl
  map_get-table pong = refl

  module _ (before : World G) (uuids : Ids U uuid_dec nil_uuid)
      (some_ids : (k : Game) → is_nil G (id_at U uuid_dec nil_uuid uuids k) ≡ false) where
    abbrev P : (Game → GameState) → List (Sig U uuid_dec nil_uuid) → World G → Type 0
    P = Phase U uuid_dec nil_uuid before uuids some_ids

    abbrev pub left : World G → List (Sig U uuid_dec nil_uuid) → World G
    left w rest = record w {
      signal_queue = record w.signal_queue { front_values = []; back_values = rest };
    }

    left-Phase :
        {s : Game → GameState} (w : World G) (q rest : List (Sig U uuid_dec nil_uuid))
        → P s q w
        → P s rest (left w rest)
    left-Phase w q rest h = record {
      store_linked = h.store_linked;
      at = h.at;
      below = h.below;
      others = h.others;
      no_front = refl;
      waiting = refl;
    }

    pop_lem :
        {s : Game → GameState} (w : World G) (sig : Sig U uuid_dec nil_uuid)
        (rest : List (Sig U uuid_dec nil_uuid))
        → P s (sig ∷ rest) w
        → pop_front w.signal_queue ≡ ((left w rest).signal_queue, some sig)
    unfolding pop_front
    pop_lem w sig rest h =
        rw (h.no_front, h.waiting, take_value)
          (ap (λ f. (record w.signal_queue { front_values = f; back_values = rest }, some sig))
            h.no_front)

    pop_none :
        {s : Game → GameState} (w : World G)
        → P s [] w
        → pop_front w.signal_queue ≡ (w.signal_queue, none)
    pop_none w h = elim (pop_front-contents w.signal_queue) [
      | inl (empty, popped) ↦ popped
      | inr (x, popped, rest) ↦
          let none_there : contents w.signal_queue ≡ [] = rw (h.no_front, h.waiting) in
          cc (sym none_there ∙ rest)
    ]

    -- the machine of the first signal's kind is called
    moves :
        {s s' : Game → GameState} {q : List (Sig U uuid_dec nil_uuid)}
        (sig : Sig U uuid_dec nil_uuid) (n : ℕ) {ts : List Turn} (Q : World G → Type 0)
        → Takes (P s []) ((machine_at sig.id.kind).process sig.id sig.input) tt (P s' q)
        → ((v : World G) → P s' q v → Outcome G table n ts Q v)
        → (w : World G) → P s (sig ∷ []) w
        → Outcome G table (suc n) (handled ∷ ts) Q w
    moves sig n Q takes later w h =
        Outcome-next G table w (left w []).signal_queue sig (machine_at sig.id.kind)
          (pop_lem w sig [] h) (map_get-table sig.id.kind) takes (left-Phase w (sig ∷ []) [] h) n Q
          later

    abbrev states_0 : Game → GameState
    states_0 = new_state

    abbrev states_1 : Game → GameState
    states_1 = with_state U uuid_dec nil_uuid ping (ping_state PingState.sending) states_0

    abbrev states_2 : Game → GameState
    states_2 = with_state U uuid_dec nil_uuid pong (pong_state PongState.responding) states_1

    abbrev states_3 : Game → GameState
    states_3 = with_state U uuid_dec nil_uuid pong (completed_state pong) states_2

    abbrev states_4 : Game → GameState
    states_4 = with_state U uuid_dec nil_uuid ping (completed_state ping) states_3

    abbrev pub states_5 : Game → GameState
    states_5 = with_state U uuid_dec nil_uuid menu (completed_state menu) states_4

    goes_on :
        (is_terminal G (states_0 ping) ≡ false)
        × (is_terminal G (states_1 pong) ≡ false)
        × (is_terminal G (states_2 pong) ≡ false)
        × (is_terminal G (states_2 ping) ≡ false)
        × (is_terminal G (states_3 ping) ≡ false)
        × (is_terminal G (states_4 menu) ≡ false)
    unfolding is_terminal Game-discrete GameState-discrete new_state completed_state failed_state
        as_ref
    goes_on = (refl, refl, refl, refl, refl, refl)

    abbrev V :
        (s s' : Game → GameState)
        → List (Sig U uuid_dec nil_uuid)
        → List (Sig U uuid_dec nil_uuid)
        → ℕ
        → Type 0
    V s s' q q' k = (v : World G) → P s q v → Outcome G table (suc k) (handled_then k) (P s' q') v

    abbrev T : List (Sig U uuid_dec nil_uuid) → (Game → GameState) → ℕ → Type 0
    T q s k = V s states_5 q [] k

    end : T [] states_5 0
    end v h = Outcome-idle G table 0 v (P states_5 []) (pop_none v h) h

    abbrev menu_signal : Sig U uuid_dec nil_uuid
    menu_signal = record {
      id = id_at U uuid_dec nil_uuid uuids menu;
      input = menu_input ping_pong_complete;
    }

    menu_ends : T (menu_signal ∷ []) states_4 1
    unfolding news
    menu_ends =
        moves menu_signal 1 (P states_5 [])
          (menu_last-Takes U uuid_dec nil_uuid before uuids some_ids now ping_uuid pong_uuid
            goes_on.5)
          end

    abbrev packet_to_ping : ℕ → Sig U uuid_dec nil_uuid
    packet_to_ping n =
        to_ping U uuid_dec nil_uuid before uuids some_ids now
          (PingInput.packet (loose U uuid_dec nil_uuid before uuids some_ids now n pong))

    abbrev packet_to_pong : ℕ → Sig U uuid_dec nil_uuid
    packet_to_pong n =
        to_pong U uuid_dec nil_uuid before uuids some_ids now
          (PongInput.packet (loose U uuid_dec nil_uuid before uuids some_ids now n ping))

    ping_ends : T (packet_to_ping 25 ∷ []) states_3 2
    unfolding news state_input menu_state_input completed_state
    ping_ends =
        moves (packet_to_ping 25) 2 (P states_5 [])
          (ping_last-Takes U uuid_dec nil_uuid before uuids some_ids now 25 (omega arith) goes_on.4)
          menu_ends

    pong_ends : T (packet_to_pong 20 ∷ []) states_2 3
    unfolding news state_input menu_state_input completed_state
    pong_ends =
        moves (packet_to_pong 20) 3 (P states_5 [])
          (pong_last-Takes U uuid_dec nil_uuid before uuids some_ids now 20 (omega arith) goes_on.2)
          ping_ends

    -- a volley: the packet comes back from ping, and from pong, with 5 more each time
    ping_returns :
        (n k : ℕ)
        → n < 25
        → T (packet_to_pong (n + 5) ∷ []) states_2 k
        → T (packet_to_ping n ∷ []) states_2 (suc k)
    ping_returns n k few later =
        moves (packet_to_ping n) (suc k) (P states_5 [])
          (ping_packet-Takes U uuid_dec nil_uuid before uuids some_ids now n few goes_on.3) later

    pong_returns :
        (n k : ℕ)
        → 1 ≤ n
        → n < 20
        → T (packet_to_ping (n + 5) ∷ []) states_2 k
        → T (packet_to_pong n ∷ []) states_2 (suc k)
    pong_returns n k some_sent few later =
        moves (packet_to_pong n) (suc k) (P states_5 [])
          (pong_packet-Takes U uuid_dec nil_uuid before uuids some_ids now n some_sent few
            goes_on.2)
          later

    volleys : T (packet_to_ping 5 ∷ []) states_2 6
    volleys =
        ping_returns 5 5 (omega arith) (
          pong_returns 10 4 (omega arith) (omega arith) (ping_returns 15 3 (omega arith) pong_ends))

    pong_begins : T (packet_to_pong 0 ∷ []) states_1 7
    pong_begins =
        moves (packet_to_pong 0) 7 (P states_5 [])
          (pong_first-Takes U uuid_dec nil_uuid before uuids some_ids now goes_on.1) volleys

    abbrev pub start_signal : Sig U uuid_dec nil_uuid
    start_signal =
        to_ping U uuid_dec nil_uuid before uuids some_ids now
          (PingInput.start_sending (id_at U uuid_dec nil_uuid uuids pong) none)

    pub begins : T (start_signal ∷ []) states_0 8
    begins =
        moves start_signal 8 (P states_5 [])
          (start-Takes U uuid_dec nil_uuid before uuids some_ids now goes_on.0) pong_begins

    pub states_5_lem : (k : Game) → states_5 k ≡ completed_state k
    unfolding Game-discrete
    states_5_lem menu = refl
    states_5_lem ping = refl
    states_5_lem pong = refl
