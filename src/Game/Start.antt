-- ===== src/Game/Start.antt =====
-- A new game: what `Play` does to the store and the queues, and what a turn of any machine keeps.
use rex_sm.Base.{
  ◌≡◌, refl, ap, ◌∙◌, Bool, true, false, not, none, some, ok, if◌then◌else◌, eqb, eqb_self,
  eqb_apart, length,
}
use rex_sm.Kind.{Rex, StateId, id_dec, is_nil}
use rex_sm.Queue.Deque.{push_back}
use rex_sm.Storage.Linked.{IsLinked, peek_state, peek_parent}
use rex_sm.Storage.Grown.{Added}
use rex_sm.Manager.Action.{Action, ◌>>◌, >>=-ok, return}
use rex_sm.Manager.World.{World}
use rex_sm.Manager.World
use rex_sm.Manager.Machine.{create_tree, new_child}
use rex_sm.Manager.States.{get-peek}
use rex_sm.Manager.Created.{create_tree-trees, create_tree-Added, new_child-trees, new_child-Added}
use rex_sm.Game.Types.{
  Game, ping, pong, menu, pong_state, ping_state, menu_state, MenuState, PingState, PongState, play,
  new_state, PingInput, ping_input, menu_input, WhoHolds,
}
use rex_sm.Game.Machines.{R, push_signal, start_game, menu_step, menu_process, ends}

abbrev is_menu : Game → Bool
is_menu menu = true
is_menu k = false

abbrev is_pong : Game → Bool
is_pong pong = true
is_pong k = false

module _ (U : Type 0) (uuid_dec : Discrete U) (nil_uuid : U) where
  abbrev G : Rex
  G = R U uuid_dec nil_uuid

  abbrev pub id_of : Game → U → StateId Game U
  id_of k u = record { kind = k; uuid = u }

  -- the three ids of a new game: not nil, and not stored
  pub record IsFresh (w : World G) (menu_uuid ping_uuid pong_uuid : U) : Type 0 where
    pub some_menu : is_nil G (id_of menu menu_uuid) ≡ false
    pub some_ping : is_nil G (id_of ping ping_uuid) ≡ false
    pub some_pong : is_nil G (id_of pong pong_uuid) ≡ false
    pub new_menu : w.state_store.trees (id_of menu menu_uuid) ≡ none
    pub new_ping : w.state_store.trees (id_of ping ping_uuid) ≡ none
    pub new_pong : w.state_store.trees (id_of pong pong_uuid) ≡ none

  -- a menu with a ping state and a pong state below it, all ready, and the signal that starts them
  pub record Started (w w' : World G) (menu_uuid ping_uuid pong_uuid : U) (who_holds : WhoHolds)
      : Type 0 where
    pub store_linked : IsLinked (id_dec G) w'.state_store
    pub states :
        (j : StateId Game U)
        → peek_state (id_dec G) w'.state_store j ≡ (
            if eqb (id_dec G) (id_of pong pong_uuid) j
            then ok (some (pong_state PongState.ready))
            else if eqb (id_dec G) (id_of ping ping_uuid) j
            then ok (some (ping_state PingState.ready))
            else if eqb (id_dec G) (id_of menu menu_uuid) j
            then ok (some (menu_state MenuState.ready))
            else peek_state (id_dec G) w.state_store j)
    pub parents :
        (j : StateId Game U)
        → peek_parent (id_dec G) w'.state_store j ≡ (
            if eqb (id_dec G) (id_of pong pong_uuid) j
            then ok (some (id_of menu menu_uuid))
            else if eqb (id_dec G) (id_of ping ping_uuid) j
            then ok (some (id_of menu menu_uuid))
            else if eqb (id_dec G) (id_of menu menu_uuid) j
            then ok none
            else peek_parent (id_dec G) w.state_store j)
    pub told_ping :
        w'.signal_queue
        ≡ push_back w.signal_queue (record {
          id = id_of ping ping_uuid;
          input = ping_input (PingInput.start_sending (id_of pong pong_uuid) who_holds);
        })
    pub same_notes : w'.notification_queue ≡ w.notification_queue

  module _ (w : World G) (menu_uuid ping_uuid pong_uuid : U)
      (linked : IsLinked (id_dec G) w.state_store)
      (fresh : IsFresh w menu_uuid ping_uuid pong_uuid) where
    abbrev menu_id : StateId Game U
    menu_id = id_of menu menu_uuid

    abbrev ping_id : StateId Game U
    ping_id = id_of ping ping_uuid

    abbrev pong_id : StateId Game U
    pong_id = id_of pong pong_uuid

    abbrev created : World G
    created = (create_tree G menu_id w).0

    abbrev with_ping : World G
    with_ping = (new_child G menu_id ping_id created).0

    abbrev with_pong : World G
    with_pong = (new_child G menu_id pong_id with_ping).0

    menu-ping : eqb (id_dec G) menu_id ping_id ≡ false
    menu-ping = eqb_apart (id_dec G) menu_id ping_id (λ j. not (is_menu j.kind)) refl refl

    menu-pong : eqb (id_dec G) menu_id pong_id ≡ false
    menu-pong = eqb_apart (id_dec G) menu_id pong_id (λ j. not (is_menu j.kind)) refl refl

    ping-menu : eqb (id_dec G) ping_id menu_id ≡ false
    ping-menu = eqb_apart (id_dec G) ping_id menu_id (λ j. is_menu j.kind) refl refl

    ping-pong : eqb (id_dec G) ping_id pong_id ≡ false
    ping-pong = eqb_apart (id_dec G) ping_id pong_id (λ j. is_pong j.kind) refl refl

    created-Added :
        ((create_tree G menu_id w).1 ≡ ok tt)
        × Added
            (id_dec G)
            menu_id
            none
            (menu_state MenuState.ready)
            w.state_store
            created.state_store
        × (created.signal_queue ≡ w.signal_queue)
        × (created.notification_queue ≡ w.notification_queue)
    unfolding new_state
    created-Added = create_tree-Added G w menu_id fresh.some_menu linked fresh.new_menu

    at_created :
        (j : StateId Game U)
        → created.state_store.trees j ≡ (
            if eqb (id_dec G) menu_id j
            then some (length w.state_store.heap)
            else w.state_store.trees j)
    at_created = create_tree-trees G w menu_id fresh.some_menu linked fresh.new_menu

    menu_at : created.state_store.trees menu_id ≡ some (length w.state_store.heap)
    menu_at = at_created menu_id ∙ rw (eqb_self (id_dec G) menu_id)

    with_ping-Added :
        ((new_child G menu_id ping_id created).1 ≡ ok tt)
        × Added
            (id_dec G)
            ping_id
            (some menu_id)
            (ping_state PingState.ready)
            created.state_store
            with_ping.state_store
        × (with_ping.signal_queue ≡ created.signal_queue)
        × (with_ping.notification_queue ≡ created.notification_queue)
    unfolding new_state
    with_ping-Added =
        new_child-Added G created menu_id (length w.state_store.heap) fresh.some_menu
          created-Added.1.store_linked menu_at ping_id fresh.some_ping
          (at_created ping_id ∙ rw menu-ping fresh.new_ping)

    at_ping :
        (j : StateId Game U)
        → with_ping.state_store.trees j ≡ (
            if eqb (id_dec G) ping_id j
            then some (length w.state_store.heap)
            else created.state_store.trees j)
    at_ping =
        new_child-trees G created menu_id (length w.state_store.heap) fresh.some_menu
          created-Added.1.store_linked menu_at ping_id fresh.some_ping

    with_pong-Added :
        ((new_child G menu_id pong_id with_ping).1 ≡ ok tt)
        × Added
            (id_dec G)
            pong_id
            (some menu_id)
            (pong_state PongState.ready)
            with_ping.state_store
            with_pong.state_store
        × (with_pong.signal_queue ≡ with_ping.signal_queue)
        × (with_pong.notification_queue ≡ with_ping.notification_queue)
    unfolding new_state
    with_pong-Added =
        new_child-Added G with_ping menu_id (length w.state_store.heap) fresh.some_menu
          with_ping-Added.1.store_linked (at_ping menu_id ∙ rw ping-menu menu_at) pong_id
          fresh.some_pong
          (at_ping pong_id ∙ rw ping-pong (at_created pong_id ∙ rw menu-pong fresh.new_pong))

    abbrev kick : (who_holds : WhoHolds) → Action (World G) (Unit {0})
    kick who_holds =
        push_signal U uuid_dec nil_uuid ping_id
          (ping_input (PingInput.start_sending pong_id who_holds))

    start_game_lem :
        (who_holds : WhoHolds)
        → start_game U uuid_dec nil_uuid menu_id who_holds ping_uuid pong_uuid w
          ≡ kick who_holds with_pong
    unfolding start_game
    start_game_lem who_holds =
        >>=-ok (create_tree G menu_id)
          (λ (_ : Unit {0}).
            new_child G menu_id ping_id >> (new_child G menu_id pong_id >> kick who_holds))
          (ap (λ r. (created, r)) created-Added.0)
        ∙ >>=-ok (new_child G menu_id ping_id)
            (λ (_ : Unit {0}). new_child G menu_id pong_id >> kick who_holds)
            (ap (λ r. (with_ping, r)) with_ping-Added.0)
        ∙ >>=-ok (new_child G menu_id pong_id) (λ (_ : Unit {0}). kick who_holds)
            (ap (λ r. (with_pong, r)) with_pong-Added.0)

    read_menu : World.get_state G menu_id w ≡ (w, ok none)
    unfolding peek_state
    read_menu = (get-peek G w menu_id fresh.some_menu linked).0 ∙ rw (peek_state, fresh.new_menu)

    menu_process_lem :
        (who_holds : WhoHolds)
        → menu_process U uuid_dec nil_uuid ping_uuid pong_uuid menu_id
            (menu_input (play who_holds))
            w
          ≡ kick who_holds with_pong
    unfolding menu_process menu_step
    menu_process_lem who_holds =
        >>=-ok (World.get_state G menu_id)
          (λ state.
            if ends U uuid_dec nil_uuid state
            then return tt
            else menu_step U uuid_dec nil_uuid ping_uuid pong_uuid menu_id (play who_holds))
          read_menu
        ∙ start_game_lem who_holds

    with_pong-Started :
        (who_holds : WhoHolds)
        → Started w (kick who_holds with_pong).0 menu_uuid ping_uuid pong_uuid who_holds
    unfolding push_signal
    with_pong-Started who_holds =
        let (r0, a0, s0, n0) = created-Added in
        let (r1, a1, s1, n1) = with_ping-Added in
        let (r2, a2, s2, n2) = with_pong-Added in
        record {
          store_linked = a2.store_linked;
          states = λ j. a2.states j ∙ rw (a1.states j, a0.states j);
          parents = λ j. a2.parents j ∙ rw (a1.parents j, a0.parents j);
          told_ping =
              ap
                (λ q. push_back q (record {
                  id = ping_id;
                  input = ping_input (PingInput.start_sending pong_id who_holds);
                }))
                (s2 ∙ s1 ∙ s0);
          same_notes = n2 ∙ n1 ∙ n0;
        }

    -- On a linked store, `Play` for a menu with three fresh ids that are not nil returns: a tree of
    -- the menu with the ping and the pong state below it is added, each in the new state of its
    -- kind, no other state or parent changes, ping is told to start, and nothing is notified.
    pub menu_process-Started :
        (who_holds : WhoHolds)
        → let (w', r) =
            menu_process U uuid_dec nil_uuid ping_uuid pong_uuid menu_id
              (menu_input (play who_holds))
              w in
          (r ≡ ok tt) × Started w w' menu_uuid ping_uuid pong_uuid who_holds
    unfolding push_signal
    menu_process-Started who_holds =
        rw (menu_process_lem who_holds) (refl, with_pong-Started who_holds)
