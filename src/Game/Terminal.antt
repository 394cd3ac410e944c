-- ===== src/Game/Terminal.antt =====
-- A state that is done or failed stays as it is.
use rex_sm.Base.{ℕ, ◌≡◌, refl, ap, ◌∙◌, true, false, Option, some, ok, if◌then◌else◌}
use rex_sm.Kind.{StateId, id_dec, is_nil, is_terminal}
use rex_sm.Storage.Linked.{IsLinked, peek_state, peek_parent}
use rex_sm.Manager.Action.{Action, ◌>>=◌, >>=-ok, return, unwrap}
use rex_sm.Manager.World.{World, get_state, get_parent_id}
use rex_sm.Manager.States.{get-peek}
use rex_sm.Game.Types.{Game, GameState, GameInput, ping_input, pong_input, menu_input}
use rex_sm.Game.Machines.{
  R, ping_process, pong_process, menu_process, ping_step, pong_step, menu_step, ends,
}

module _ (U : Type 0) (uuid_dec : Discrete U) (nil_uuid : U) (w : World (R U uuid_dec nil_uuid))
    (i : StateId Game U) (s : GameState) (some_id : is_nil (R U uuid_dec nil_uuid) i ≡ false)
    (linked : IsLinked (id_dec (R U uuid_dec nil_uuid)) w.state_store)
    (at : peek_state (id_dec (R U uuid_dec nil_uuid)) w.state_store i ≡ ok (some s))
    (ended : is_terminal (R U uuid_dec nil_uuid) s ≡ true) where
  read : get_state (R U uuid_dec nil_uuid) i w ≡ (w, ok (some s))
  read = (get-peek (R U uuid_dec nil_uuid) w i some_id linked).0 ∙ ap (λ r. (w, r)) at

  -- the rest of a call, from the state on
  abbrev from_state :
      Action (World (R U uuid_dec nil_uuid)) (Unit {0})
      → Option GameState
      → Action (World (R U uuid_dec nil_uuid)) (Unit {0})
  from_state rest state =
      unwrap state >>= λ t. if is_terminal (R U uuid_dec nil_uuid) t then return tt else rest

  abbrev menu_from :
      Action (World (R U uuid_dec nil_uuid)) (Unit {0})
      → Option GameState
      → Action (World (R U uuid_dec nil_uuid)) (Unit {0})
  menu_from rest state = if ends U uuid_dec nil_uuid state then return tt else rest

  from_state_lem :
      (rest : Action (World (R U uuid_dec nil_uuid)) (Unit {0}))
      → (get_state (R U uuid_dec nil_uuid) i >>= from_state rest) w ≡ (w, ok tt)
  from_state_lem rest =
      >>=-ok (get_state (R U uuid_dec nil_uuid) i) (from_state rest) read ∙ rw ended

  abbrev from_parent :
      Action (World (R U uuid_dec nil_uuid)) (Unit {0})
      → Option (StateId Game U)
      → Action (World (R U uuid_dec nil_uuid)) (Unit {0})
  from_parent rest parent =
      unwrap parent >>= λ parent_id. get_state (R U uuid_dec nil_uuid) i >>= from_state rest

  -- On a linked store, where an id that is not nil has a parent and a terminal state, each of the
  -- three machines takes any input for it and returns with nothing changed: no state, no signal, no
  -- notification.
  pub process-is_terminal :
      (now : ℕ) (ping_uuid pong_uuid : U) (p : StateId Game U) (input : GameInput U)
      → peek_parent (id_dec (R U uuid_dec nil_uuid)) w.state_store i ≡ ok (some p)
      → (ping_process U uuid_dec nil_uuid now i input w ≡ (w, ok tt))
        × (pong_process U uuid_dec nil_uuid now i input w ≡ (w, ok tt))
        × (menu_process U uuid_dec nil_uuid ping_uuid pong_uuid i input w ≡ (w, ok tt))
  unfolding ping_process pong_process menu_process
  process-is_terminal now ping_uuid pong_uuid p (ping_input input) below =
      let parent =
        (get-peek (R U uuid_dec nil_uuid) w i some_id linked).1 ∙ ap (λ r. (w, r)) below in
      (
        >>=-ok (get_parent_id (R U uuid_dec nil_uuid) i)
              (from_parent (ping_step U uuid_dec nil_uuid now i input)) parent
            ∙ from_state_lem (ping_step U uuid_dec nil_uuid now i input),
        refl,
        refl,
      )
  process-is_terminal now ping_uuid pong_uuid p (pong_input input) below =
      let rest = get_parent_id (R U uuid_dec nil_uuid) i >>= λ parent.
      unwrap parent >>= λ parent_id. pong_step U uuid_dec nil_uuid now i input in
      (refl, from_state_lem rest, refl)
  process-is_terminal now ping_uuid pong_uuid p (menu_input input) below = (
    refl,
    refl,
    >>=-ok (get_state (R U uuid_dec nil_uuid) i)
          (menu_from (menu_step U uuid_dec nil_uuid ping_uuid pong_uuid i input)) read
        ∙ rw ended,
  )
