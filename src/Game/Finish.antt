-- ===== src/Game/Finish.antt =====
-- A whole game in the signal loop: `Play` for a fresh menu, and nine turns later all have ended.
use rex_sm.Base.{ℕ, ◌≡◌, refl, ap, ◌∙◌, false, none, some, [], ◌∷◌, push, ok, eqb}
use rex_sm.Kind.{Rex, StateId, id_dec, is_nil}
use rex_sm.Queue.Deque.{pop_front, take_value}
use rex_sm.Queue.Order.{front-push_back, back-push_back, contents}
use rex_sm.Storage.Linked.{IsLinked, peek_state, peek_parent}
use rex_sm.Manager.World.{World}
use rex_sm.Manager.Dispatch.{turns, new_manager}
use rex_sm.Manager.Takes.{Takes}
use rex_sm.Manager.Chain.{Outcome, Outcome-next}
use rex_sm.Game.Types.{
  Game, ping, pong, menu, Game-discrete, new_state, completed_state, play, menu_input,
}
use rex_sm.Game.Machines.{R, machines, menu_process, push_signal}
use rex_sm.Game.Start.{IsFresh, Started, menu_process-Started}
use rex_sm.Game.Phase.{id_at, Sig, above, Phase, eqb-id_at}
use rex_sm.Game.Match.{
  machine_at, table, table_lem, map_get-table, left, start_signal, states_5, begins, handled_then,
  states_5_lem,
}

abbrev pub three : {U : Type 0} → U → U → U → Game → U
three menu_uuid ping_uuid pong_uuid menu = menu_uuid
three menu_uuid ping_uuid pong_uuid ping = ping_uuid
three menu_uuid ping_uuid pong_uuid pong = pong_uuid

module _ (U : Type 0) (uuid_dec : Discrete U) (nil_uuid : U) (ping_uuid pong_uuid : U)
    (now : ℕ) where
  abbrev G : Rex
  G = R U uuid_dec nil_uuid

  module _ (menu_uuid : U) (w : World G) (linked : IsLinked (id_dec G) w.state_store)
      (fresh : IsFresh U uuid_dec nil_uuid w menu_uuid ping_uuid pong_uuid)
      (no_front : w.signal_queue.front_values ≡ [])
      (none_waiting : w.signal_queue.back_values ≡ []) where
    abbrev uuids_of : Game → U
    uuids_of = three menu_uuid ping_uuid pong_uuid

    some_ids : (k : Game) → is_nil G (id_at U uuid_dec nil_uuid uuids_of k) ≡ false
    some_ids menu = fresh.some_menu
    some_ids ping = fresh.some_ping
    some_ids pong = fresh.some_pong

    abbrev play_signal : Sig U uuid_dec nil_uuid
    play_signal = record {
      id = id_at U uuid_dec nil_uuid uuids_of menu;
      input = menu_input (play none);
    }

    abbrev asked : World G
    asked = (push_signal U uuid_dec nil_uuid play_signal.id play_signal.input w).0

    -- the world once the signal is taken
    abbrev taken : World G
    taken = left U uuid_dec nil_uuid ping_uuid pong_uuid now w uuids_of some_ids asked []

    played : World G
    played =
        (menu_process U uuid_dec nil_uuid ping_uuid pong_uuid play_signal.id play_signal.input
          taken).0

    module _ (v : World G)
        (st : Started U uuid_dec nil_uuid taken v menu_uuid ping_uuid pong_uuid none) where
      apart :
          (k j : Game)
          → eqb
              (id_dec G)
              (id_at U uuid_dec nil_uuid uuids_of k)
              (id_at U uuid_dec nil_uuid uuids_of j)
            ≡ eqb Game-discrete k j
      apart = eqb-id_at U uuid_dec nil_uuid w uuids_of some_ids

      started_at :
          (j : Game)
          → peek_state (id_dec G) v.state_store (id_at U uuid_dec nil_uuid uuids_of j)
            ≡ ok (some (new_state j))
      unfolding Game-discrete new_state
      started_at menu =
          st.states (id_at U uuid_dec nil_uuid uuids_of menu)
          ∙ rw (apart pong menu, apart ping menu, apart menu menu)
      started_at ping =
          st.states (id_at U uuid_dec nil_uuid uuids_of ping)
          ∙ rw (apart pong ping, apart ping ping)
      started_at pong = st.states (id_at U uuid_dec nil_uuid uuids_of pong) ∙ rw (apart pong pong)

      started_below :
          (j : Game)
          → peek_parent (id_dec G) v.state_store (id_at U uuid_dec nil_uuid uuids_of j)
            ≡ ok (above U uuid_dec nil_uuid uuids_of j)
      unfolding Game-discrete
      started_below menu =
          st.parents (id_at U uuid_dec nil_uuid uuids_of menu)
          ∙ rw (apart pong menu, apart ping menu, apart menu menu)
      started_below ping =
          st.parents (id_at U uuid_dec nil_uuid uuids_of ping)
          ∙ rw (apart pong ping, apart ping ping)
      started_below pong =
          st.parents (id_at U uuid_dec nil_uuid uuids_of pong) ∙ rw (apart pong pong)

      started :
          Phase U uuid_dec nil_uuid w uuids_of some_ids new_state
            (start_signal U uuid_dec nil_uuid ping_uuid pong_uuid now w uuids_of some_ids ∷ [])
            v
      unfolding push_signal
      started = record {
        store_linked = st.store_linked;
        at = started_at;
        below = started_below;
        others = λ j away. st.states j ∙ rw (away pong, away ping, away menu);
        no_front =
            ap (λ q. q.front_values) st.told_ping
            ∙ front-push_back taken.signal_queue
                (start_signal U uuid_dec nil_uuid ping_uuid pong_uuid now w uuids_of some_ids);
        waiting =
            ap (λ q. q.back_values) st.told_ping
            ∙ back-push_back taken.signal_queue
                (start_signal U uuid_dec nil_uuid ping_uuid pong_uuid now w uuids_of some_ids);
      }

    asked_lem : pop_front asked.signal_queue ≡ (taken.signal_queue, some play_signal)
    unfolding pop_front push_signal
    asked_lem =
        let front = front-push_back w.signal_queue play_signal ∙ no_front in
        let back =
          back-push_back w.signal_queue play_signal ∙ ap (λ q. push q play_signal) none_waiting in
        rw (front, back, take_value)
          (ap
            (λ f.
              (record asked.signal_queue { front_values = f; back_values = [] }, some play_signal))
            front)

    abbrev Ended : World G → Type 0
    Ended =
        Phase U uuid_dec nil_uuid w uuids_of some_ids
          (states_5 U uuid_dec nil_uuid ping_uuid pong_uuid now w uuids_of some_ids) []

    fresh' : IsFresh U uuid_dec nil_uuid taken menu_uuid ping_uuid pong_uuid
    unfolding push_signal
    fresh' = record {
      some_menu = fresh.some_menu;
      some_ping = fresh.some_ping;
      some_pong = fresh.some_pong;
      new_menu = fresh.new_menu;
      new_ping = fresh.new_ping;
      new_pong = fresh.new_pong;
    }

    play-Takes :
        Takes
          (λ v. v ≡ taken)
          (menu_process U uuid_dec nil_uuid ping_uuid pong_uuid play_signal.id play_signal.input)
          tt
          (λ v. Started U uuid_dec nil_uuid taken v menu_uuid ping_uuid pong_uuid none)
    unfolding push_signal
    play-Takes =
        let (r, st) =
          menu_process-Started U uuid_dec nil_uuid taken menu_uuid ping_uuid pong_uuid linked fresh'
            none in
        record { returns = λ v e. rw e r; leads = λ v e. rw e st }

    play_turns :
        Outcome G
          (table U uuid_dec nil_uuid ping_uuid pong_uuid now)
          10
          (handled_then 9)
          Ended
          asked
    play_turns =
        Outcome-next G (table U uuid_dec nil_uuid ping_uuid pong_uuid now) asked taken.signal_queue
          play_signal (machine_at U uuid_dec nil_uuid ping_uuid pong_uuid now menu) asked_lem
          (map_get-table U uuid_dec nil_uuid ping_uuid pong_uuid now menu) play-Takes refl 9 Ended
          (λ v st.
            begins U uuid_dec nil_uuid ping_uuid pong_uuid now w uuids_of some_ids v (started v st))

    -- With the signals queue empty, a linked store and three fresh ids that are not nil, `Play` for
    -- the menu, with nobody to hold the packet, is handled in nine turns of the signal loop with the
    -- manager of the three machines, after which the loop waits: menu, ping and pong are done, the
    -- state of every other id is what it was, the store is linked, and no signal is left.
    pub play-completes :
        let (w', ts) = turns G 10 (table U uuid_dec nil_uuid ping_uuid pong_uuid now) asked in
        (new_manager G (machines U uuid_dec nil_uuid ping_uuid pong_uuid now)
          ≡ ok (table U uuid_dec nil_uuid ping_uuid pong_uuid now))
        × (ts ≡ handled_then 9)
        × ((k : Game)
            → peek_state (id_dec G) w'.state_store (id_at U uuid_dec nil_uuid uuids_of k)
              ≡ ok (some (completed_state k)))
        × ((j : StateId Game U)
            → ((k : Game) → eqb (id_dec G) (id_at U uuid_dec nil_uuid uuids_of k) j ≡ false)
            → peek_state (id_dec G) w'.state_store j ≡ peek_state (id_dec G) w.state_store j)
        × IsLinked (id_dec G) w'.state_store
        × (contents w'.signal_queue ≡ [])
    play-completes =
        let (r, h) = play_turns in
        (
          table_lem U uuid_dec nil_uuid ping_uuid pong_uuid now,
          r,
          (λ k.
              h.at k
              ∙ ap (λ v. ok (some v))
                  (states_5_lem U uuid_dec nil_uuid ping_uuid pong_uuid now w uuids_of some_ids k)),
          h.others,
          h.store_linked,
          rw (h.no_front, h.waiting),
        )
