-- ===== src/Tests/Histories.antt =====
-- Witnesses for whole games and for the machines of a loop.
use rex_sm.Base.{
  ℕ, ◌≡◌, [], ◌∷◌, refl, ◌∙◌, inr, false, none, some, ok, eqb, eqb_self, ℕ_discrete, map_get, arith,
}
use rex_sm.Kind.{StateId, id_dec, is_nil, is_terminal}
use rex_sm.Storage.Linked.{IsLinked, peek_state}
use rex_sm.Manager.World.{World}
use rex_sm.Manager.Dispatch.{StateMachine, Machines, turns, new_manager}
use rex_sm.Manager.Lawful.{IsLawful, turns-IsLinked}
use rex_sm.Manager.Created.{create_tree-Added}
use rex_sm.Game.Types.{
  Game, menu, ping, pong, Game-discrete, GameInput, menu_input, play, failed_pong, menu_state,
  MenuState, new_state, GameState-discrete, completed_state, failed_state, as_ref,
}
use rex_sm.Game.Machines.{R, ping_process, pong_process, menu_process, push_signal, machines}
use rex_sm.Game.Lawful.{ping_process-IsLawful, pong_process-IsLawful}
use rex_sm.Game.Start.{IsFresh, Started, menu_process-Started}
use rex_sm.Game.History.{History, start, next, plays, History-IsLinked}
use rex_sm.Game.Failure.{Failed, menu_process-Failed}
use rex_sm.Queue.Order.{contents}
use rex_sm.Game.Phase.{id_at}
use rex_sm.Game.Match
use rex_sm.Game.Match.{handled_then}
use rex_sm.Game.Finish.{three, play-completes}
use rex_sm.Tests.Games.{
  menu_id, empty_game, empty_game-IsLinked, menu_only, menu_only-IsLinked, some_menu, menu_at,
  with_ping, with_ping-IsLinked,
}

fresh : IsFresh ℕ ℕ_discrete 0 empty_game 1 2 3
unfolding is_nil ℕ_discrete
fresh = record {
  some_menu = refl;
  some_ping = refl;
  some_pong = refl;
  new_menu = refl;
  new_ping = refl;
  new_pong = refl;
}

abbrev played : World (R ℕ ℕ_discrete 0)
played = (menu_process ℕ ℕ_discrete 0 2 3 menu_id (menu_input (play none)) empty_game).0

menu_process-Started_example :
    ((menu_process ℕ ℕ_discrete 0 2 3 menu_id (menu_input (play none)) empty_game).1 ≡ ok tt)
    × Started ℕ ℕ_discrete 0 empty_game played 1 2 3 none
menu_process-Started_example =
    menu_process-Started ℕ ℕ_discrete 0 empty_game 1 2 3 empty_game-IsLinked fresh none

one_game : History ℕ ℕ_discrete 0 empty_game played
one_game = next start (plays 1 2 3 none fresh refl)

History-IsLinked_example : IsLinked (id_dec (R ℕ ℕ_discrete 0)) played.state_store
History-IsLinked_example = History-IsLinked ℕ ℕ_discrete 0 empty_game-IsLinked one_game

menu_is_ready :
    peek_state (id_dec (R ℕ ℕ_discrete 0)) menu_only.state_store menu_id
    ≡ ok (some (menu_state MenuState.ready))
unfolding new_state
menu_is_ready =
    (create_tree-Added (R ℕ ℕ_discrete 0) empty_game menu_id some_menu empty_game-IsLinked
        refl).1.states
      menu_id
    ∙ rw (eqb_self (id_dec (R ℕ ℕ_discrete 0)) menu_id)

ready_goes_on : is_terminal (R ℕ ℕ_discrete 0) (menu_state MenuState.ready) ≡ false
unfolding is_terminal completed_state failed_state as_ref GameState-discrete
ready_goes_on = refl

menu_process-Failed_example :
    let h = menu_only-IsLinked.linked menu_id 0 menu_at in
    let (w', r) = menu_process ℕ ℕ_discrete 0 2 3 menu_id (menu_input failed_pong) menu_only in
    (r ≡ ok tt) × Failed ℕ ℕ_discrete 0 0 h.tree menu_only w'
menu_process-Failed_example =
    menu_process-Failed ℕ ℕ_discrete 0 menu_only menu_id 0
      (menu_only-IsLinked.linked menu_id 0 menu_at).tree some_menu menu_only-IsLinked menu_at
      (menu_only-IsLinked.linked menu_id 0 menu_at).cell 2 3 failed_pong
      (menu_state MenuState.ready) (inr refl) menu_is_ready ready_goes_on

abbrev table : Machines (R ℕ ℕ_discrete 0)
table =
    (ping, record { kind = ping; process = ping_process ℕ ℕ_discrete 0 100 })
    ∷ (pong, record { kind = pong; process = pong_process ℕ ℕ_discrete 0 100 })
    ∷ []

given :
    (m sm : StateMachine (R ℕ ℕ_discrete 0)) (i : StateId Game ℕ) (input : GameInput ℕ)
    → some m ≡ some sm
    → IsLawful (R ℕ ℕ_discrete 0) (m.process i input)
    → IsLawful (R ℕ ℕ_discrete 0) (sm.process i input)
given m sm i input e h = let same : m ≡ sm = ground (arith, e) in rw (← same) h

lawful :
    (k : Game) (sm : StateMachine (R ℕ ℕ_discrete 0))
    → map_get Game-discrete table k ≡ some sm
    → (i : StateId Game ℕ) (input : GameInput ℕ) → IsLawful (R ℕ ℕ_discrete 0) (sm.process i input)
unfolding map_get Game-discrete
lawful ping sm found i input =
    given (record { kind = ping; process = ping_process ℕ ℕ_discrete 0 100 }) sm i input found
      (ping_process-IsLawful ℕ ℕ_discrete 0 100 i input)
lawful pong sm found i input =
    given (record { kind = pong; process = pong_process ℕ ℕ_discrete 0 100 }) sm i input found
      (pong_process-IsLawful ℕ ℕ_discrete 0 100 i input)
lawful menu sm found i input = cc

turns-IsLinked_example :
    IsLinked (id_dec (R ℕ ℕ_discrete 0)) (turns (R ℕ ℕ_discrete 0) 3 table with_ping).0.state_store
turns-IsLinked_example =
    turns-IsLinked (R ℕ ℕ_discrete 0) table lawful 3 with_ping with_ping-IsLinked

abbrev asked : World (R ℕ ℕ_discrete 0)
asked = (push_signal ℕ ℕ_discrete 0 menu_id (menu_input (play none)) empty_game).0

play-completes_example :
    let (w', ts) = turns (R ℕ ℕ_discrete 0) 10 (Match.table ℕ ℕ_discrete 0 2 3 100) asked in
    (new_manager (R ℕ ℕ_discrete 0) (machines ℕ ℕ_discrete 0 2 3 100)
      ≡ ok (Match.table ℕ ℕ_discrete 0 2 3 100))
    × (ts ≡ handled_then 9)
    × ((k : Game)
        → peek_state
            (id_dec (R ℕ ℕ_discrete 0))
            w'.state_store
            (id_at ℕ ℕ_discrete 0 (three 1 2 3) k)
          ≡ ok (some (completed_state k)))
    × ((j : StateId Game ℕ)
        → ((k : Game)
            → eqb (id_dec (R ℕ ℕ_discrete 0)) (id_at ℕ ℕ_discrete 0 (three 1 2 3) k) j ≡ false)
        → peek_state (id_dec (R ℕ ℕ_discrete 0)) w'.state_store j
          ≡ peek_state (id_dec (R ℕ ℕ_discrete 0)) empty_game.state_store j)
    × IsLinked (id_dec (R ℕ ℕ_discrete 0)) w'.state_store
    × (contents w'.signal_queue ≡ [])
play-completes_example =
    play-completes ℕ ℕ_discrete 0 2 3 100 1 empty_game empty_game-IsLinked fresh refl refl
