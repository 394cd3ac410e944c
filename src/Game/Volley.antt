-- ===== src/Game/Volley.antt =====
-- What the three machines make of a game's signals: the moves of a game that nobody holds up.
use rex_sm.Base.{ℕ, ◌+◌, ◌≤◌, ◌<◌, ◌≡◌, true, false, none, List, ◌++◌, push, ltb, natb, arith}
use rex_sm.Kind.{Rex, StateId, is_nil, is_terminal}
use rex_sm.Manager.Action.{Action, ◌>>◌, return}
use rex_sm.Manager.World.{World}
use rex_sm.Manager.Machine.{set_timeout, cancel_timeout, complete, update}
use rex_sm.Manager.Takes.{Takes, >>-Takes, return-Takes}
use rex_sm.Game.Types.{
  Game, ping, pong, menu, GameState, ping_state, PingState, pong_state, PongState, completed_state,
  ping_pong_complete, PingInput, PongInput, ping_input, pong_input, menu_input, Packet,
}
use rex_sm.Game.Machines.{
  R, ping_process, pong_process, menu_process, ping_step, pong_step, menu_step, return_packet,
  ignore, push_signal, test_timeout, hold_or_return,
}
use rex_sm.Game.Phase.{Ids, id_at, Sig, with_state, news, Phase, push_signal-Takes, update-Takes}
use rex_sm.Game.Enter.{
  complete-Takes, timeout-Takes, cancel-Takes, enter_ping, enter_pong, enter_menu,
}

module _ (U : Type 0) (uuid_dec : Discrete U) (nil_uuid : U)
    (before : World (R U uuid_dec nil_uuid)) (uuids : Ids U uuid_dec nil_uuid)
    (some_ids : (k : Game)
      → is_nil (R U uuid_dec nil_uuid) (id_at U uuid_dec nil_uuid uuids k) ≡ false)
    (now : ℕ) where
  abbrev G : Rex
  G = R U uuid_dec nil_uuid

  abbrev P : (Game → GameState) → List (Sig U uuid_dec nil_uuid) → World G → Type 0
  P = Phase U uuid_dec nil_uuid before uuids some_ids

  abbrev the : Game → StateId Game U
  the = id_at U uuid_dec nil_uuid uuids

  -- a packet that nobody holds
  abbrev pub loose : ℕ → Game → Packet U
  loose n k = record { msg = n; sender = the k; who_holds = none }

  abbrev pub to_ping : PingInput U → Sig U uuid_dec nil_uuid
  to_ping input = record { id = the ping; input = ping_input input }

  abbrev pub to_pong : PongInput U → Sig U uuid_dec nil_uuid
  to_pong input = record { id = the pong; input = pong_input input }

  abbrev set_to : Game → GameState → (Game → GameState) → Game → GameState
  set_to = with_state U uuid_dec nil_uuid

  abbrev Step : Type 0
  Step = Action (World G) (Unit {0})

  module _ {s : Game → GameState} {q : List (Sig U uuid_dec nil_uuid)} where
    pub start-Takes :
        is_terminal G (s ping) ≡ false
        → Takes
            (P s q)
            (ping_process U uuid_dec nil_uuid now
              (the ping)
              (ping_input (PingInput.start_sending (the pong) none)))
            tt
            (P
              (set_to ping (ping_state PingState.sending) s)
              (push q (to_pong (PongInput.packet (loose 0 ping)))))
    unfolding ping_step
    start-Takes goes_on =
        enter_ping U uuid_dec nil_uuid before uuids some_ids now
          (PingInput.start_sending (the pong) none) goes_on
          (>>-Takes (update G (the ping) (ping_state PingState.sending))
            (push_signal U uuid_dec nil_uuid (the pong)
              (pong_input (PongInput.packet (loose 0 ping))))
            (update-Takes U uuid_dec nil_uuid before uuids some_ids ping
              (ping_state PingState.sending))
            (push_signal-Takes U uuid_dec nil_uuid before uuids some_ids (the pong)
              (pong_input (PongInput.packet (loose 0 ping)))))

    return_packet-Takes :
        (n : ℕ)
        → Takes
            (P s q)
            (return_packet U uuid_dec nil_uuid (the ping) (loose n pong))
            tt
            (P s (push q (to_pong (PongInput.packet (loose n ping)))))
          × Takes
              (P s q)
              (return_packet U uuid_dec nil_uuid (the pong) (loose n ping))
              tt
              (P s (push q (to_ping (PingInput.packet (loose n pong)))))
    unfolding return_packet
    return_packet-Takes n = (
      push_signal-Takes U uuid_dec nil_uuid before uuids some_ids (the pong)
          (pong_input (PongInput.packet (loose n ping))),
      push_signal-Takes U uuid_dec nil_uuid before uuids some_ids (the ping)
          (ping_input (PingInput.packet (loose n pong))),
    )

    pub ping_packet-Takes :
        (n : ℕ)
        → n < 25
        → is_terminal G (s ping) ≡ false
        → Takes
            (P s q)
            (ping_process U uuid_dec nil_uuid now
              (the ping)
              (ping_input (PingInput.packet (loose n pong))))
            tt
            (P s (push q (to_pong (PongInput.packet (loose (n + 5) ping)))))
    unfolding ping_step
    ping_packet-Takes n h goes_on =
        let few : ltb n 25 ≡ true = ground arith in
        enter_ping U uuid_dec nil_uuid before uuids some_ids now (PingInput.packet (loose n pong))
          goes_on
          (rw (few, ping_step)
            (>>-Takes (set_timeout G now (the ping) test_timeout)
              (hold_or_return U uuid_dec nil_uuid now ping (the ping) (loose (n + 5) pong))
              (timeout-Takes U uuid_dec nil_uuid before uuids some_ids now (the ping) test_timeout)
              (return_packet-Takes (n + 5)).0))

    pub ping_last-Takes :
        (n : ℕ)
        → 25 ≤ n
        → is_terminal G (s ping) ≡ false
        → Takes
            (P s q)
            (ping_process U uuid_dec nil_uuid now
              (the ping)
              (ping_input (PingInput.packet (loose n pong))))
            tt
            (P
              (set_to ping (completed_state ping) s)
              (q ++ news U uuid_dec nil_uuid uuids ping (completed_state ping)))
    unfolding ping_step
    ping_last-Takes n h goes_on =
        let many : ltb n 25 ≡ false = ground arith in
        enter_ping U uuid_dec nil_uuid before uuids some_ids now (PingInput.packet (loose n pong))
          goes_on
          (rw (many, ping_step)
            (>>-Takes (ignore U uuid_dec nil_uuid (complete G (the ping)))
              (cancel_timeout G (the ping))
              (complete-Takes U uuid_dec nil_uuid before uuids some_ids now ping)
              (cancel-Takes U uuid_dec nil_uuid before uuids some_ids now (the ping))))

    -- a pong state marks itself as responding or goes on, and sends the packet back
    volley-Takes :
        {s' : Game → GameState} (mark : Step) (n : ℕ)
        → Takes (P s q) mark tt (P s' q)
        → Takes
            (P s q)
            (set_timeout G now (the pong) test_timeout
              >> (mark >> hold_or_return U uuid_dec nil_uuid now pong (the pong) (loose n ping)))
            tt
            (P s' (push q (to_ping (PingInput.packet (loose n pong)))))
    unfolding return_packet
    volley-Takes mark n h =
        >>-Takes (set_timeout G now (the pong) test_timeout)
          (mark >> hold_or_return U uuid_dec nil_uuid now pong (the pong) (loose n ping))
          (timeout-Takes U uuid_dec nil_uuid before uuids some_ids now (the pong) test_timeout)
          (>>-Takes mark (hold_or_return U uuid_dec nil_uuid now pong (the pong) (loose n ping)) h (
            push_signal-Takes U uuid_dec nil_uuid before uuids some_ids (the ping)
              (ping_input (PingInput.packet (loose n pong)))))

    pub pong_first-Takes :
        is_terminal G (s pong) ≡ false
        → Takes
            (P s q)
            (pong_process U uuid_dec nil_uuid now
              (the pong)
              (pong_input (PongInput.packet (loose 0 ping))))
            tt
            (P
              (set_to pong (pong_state PongState.responding) s)
              (push q (to_ping (PingInput.packet (loose 5 pong)))))
    unfolding pong_step
    pong_first-Takes goes_on =
        enter_pong U uuid_dec nil_uuid before uuids some_ids now (PongInput.packet (loose 0 ping))
          goes_on
          (volley-Takes (update G (the pong) (pong_state PongState.responding)) 5 (
            update-Takes U uuid_dec nil_uuid before uuids some_ids pong
              (pong_state PongState.responding)))

    pub pong_packet-Takes :
        (n : ℕ)
        → 1 ≤ n
        → n < 20
        → is_terminal G (s pong) ≡ false
        → Takes
            (P s q)
            (pong_process U uuid_dec nil_uuid now
              (the pong)
              (pong_input (PongInput.packet (loose n ping))))
            tt
            (P s (push q (to_ping (PingInput.packet (loose (n + 5) pong)))))
    unfolding pong_step
    pong_packet-Takes n lo hi goes_on =
        let few : ltb n 20 ≡ true = ground arith in
        let later : natb n 0 ≡ false = ground arith in
        enter_pong U uuid_dec nil_uuid before uuids some_ids now (PongInput.packet (loose n ping))
          goes_on (rw (few, later, pong_step) (volley-Takes (return tt) (n + 5) (return-Takes tt)))

    pub pong_last-Takes :
        (n : ℕ)
        → 20 ≤ n
        → is_terminal G (s pong) ≡ false
        → Takes
            (P s q)
            (pong_process U uuid_dec nil_uuid now
              (the pong)
              (pong_input (PongInput.packet (loose n ping))))
            tt
            (P (set_to pong (completed_state pong) s) (
              push
                (q ++ news U uuid_dec nil_uuid uuids pong (completed_state pong))
                (to_ping (PingInput.packet (loose (n + 5) pong)))))
    unfolding pong_step
    pong_last-Takes n h goes_on =
        let many : ltb n 20 ≡ false = ground arith in
        enter_pong U uuid_dec nil_uuid before uuids some_ids now (PongInput.packet (loose n ping))
          goes_on
          (rw (many, pong_step)
            (>>-Takes (ignore U uuid_dec nil_uuid (complete G (the pong)))
              (cancel_timeout G (the pong)
                >> push_signal U uuid_dec nil_uuid (the ping)
                    (ping_input (PingInput.packet (loose (n + 5) pong))))
              (complete-Takes U uuid_dec nil_uuid before uuids some_ids now pong)
              (>>-Takes (cancel_timeout G (the pong))
                (push_signal U uuid_dec nil_uuid (the ping)
                  (ping_input (PingInput.packet (loose (n + 5) pong))))
                (cancel-Takes U uuid_dec nil_uuid before uuids some_ids now (the pong))
                (push_signal-Takes U uuid_dec nil_uuid before uuids some_ids (the ping)
                  (ping_input (PingInput.packet (loose (n + 5) pong)))))))

    pub menu_last-Takes :
        (ping_uuid pong_uuid : U)
        → is_terminal G (s menu) ≡ false
        → Takes
            (P s q)
            (menu_process U uuid_dec nil_uuid ping_uuid pong_uuid
              (the menu)
              (menu_input ping_pong_complete))
            tt
            (P
              (set_to menu (completed_state menu) s)
              (q ++ news U uuid_dec nil_uuid uuids menu (completed_state menu)))
    unfolding menu_step
    menu_last-Takes ping_uuid pong_uuid goes_on =
        enter_menu U uuid_dec nil_uuid before uuids some_ids now ping_uuid pong_uuid
          ping_pong_complete goes_on
          (complete-Takes U uuid_dec nil_uuid before uuids some_ids now menu)
