-- ===== src/Game/Enter.antt =====
-- The beginning of each machine's call in a game, up to the step for its input, and the methods
-- that the steps share.
use rex_sm.Base.{ℕ, ◌≡◌, refl, false, Option, some, List, ◌++◌, if◌then◌else◌}
use rex_sm.Kind.{Rex, StateId, is_nil, is_terminal}
use rex_sm.Manager.Action.{Action, ◌>>=◌, return, unwrap}
use rex_sm.Manager.World.{World, get_state, get_parent_id}
use rex_sm.Manager.Machine.{set_timeout, cancel_timeout, complete}
use rex_sm.Manager.Takes.{Takes, >>=-Takes, return-Takes}
use rex_sm.Game.Types.{
  Game, ping, pong, menu, GameState, completed_state, MenuInput, PingInput, PongInput, ping_input,
  pong_input, menu_input,
}
use rex_sm.Game.Machines.{
  R, ping_process, pong_process, menu_process, ping_step, pong_step, menu_step, ignore, ends,
}
use rex_sm.Game.Phase.{
  Ids, id_at, Sig, above, with_state, news, Phase, priority_send-Takes, get_state-Takes,
  get_parent_id-Takes, update_state_and_signal-Takes,
}

module _ (U : Type 0) (uuid_dec : Discrete U) (nil_uuid : U)
    (before : World (R U uuid_dec nil_uuid)) (uuids : Ids U uuid_dec nil_uuid)
    (some_ids : (k : Game)
      → is_nil (R U uuid_dec nil_uuid) (id_at U uuid_dec nil_uuid uuids k) ≡ false)
    (now : ℕ) where
  abbrev G : Rex
  G = R U uuid_dec nil_uuid

  abbrev P : (Game → GameState) → List (Sig U uuid_dec nil_uuid) → World G → Type 0
  P = Phase U uuid_dec nil_uuid before uuids some_ids

  abbrev the : Game → StateId Game U
  the = id_at U uuid_dec nil_uuid uuids

  abbrev set_to : Game → GameState → (Game → GameState) → Game → GameState
  set_to = with_state U uuid_dec nil_uuid

  pub complete-Takes :
      {s : Game → GameState} {q : List (Sig U uuid_dec nil_uuid)} (k : Game)
      → Takes (P s q) (ignore U uuid_dec nil_uuid (complete G (the k))) tt (
          P
            (set_to k (completed_state k) s)
            (q ++ news U uuid_dec nil_uuid uuids k (completed_state k)))
  unfolding complete
  complete-Takes k =
      >>=-Takes (complete G (the k)) (λ (p : Option (StateId Game U)). return tt)
        (update_state_and_signal-Takes U uuid_dec nil_uuid before uuids some_ids k
          (completed_state k))
        (return-Takes tt)

  pub timeout-Takes :
      {s : Game → GameState} {q : List (Sig U uuid_dec nil_uuid)} (i : StateId Game U) (d : ℕ)
      → Takes (P s q) (set_timeout G now i d) tt (P s q)
  unfolding set_timeout
  timeout-Takes i d = priority_send-Takes U uuid_dec nil_uuid before uuids some_ids _

  pub cancel-Takes :
      {s : Game → GameState} {q : List (Sig U uuid_dec nil_uuid)} (i : StateId Game U)
      → Takes (P s q) (cancel_timeout G i) tt (P s q)
  unfolding cancel_timeout
  cancel-Takes i = priority_send-Takes U uuid_dec nil_uuid before uuids some_ids _

  abbrev Step : Type 0
  Step = Action (World G) (Unit {0})

  -- the rest of a call, from the state on
  abbrev unless_ended : Step → GameState → Step
  unless_ended rest t = if is_terminal G t then return tt else rest

  abbrev with_some : {A : Type 0} → (A → Step) → Option A → Step
  with_some f o = unwrap o >>= f

  module _ {s : Game → GameState} {q : List (Sig U uuid_dec nil_uuid)} {Q : World G → Type 0} where
    from_state :
        (k : Game) (rest : Step)
        → is_terminal G (s k) ≡ false
        → Takes (P s q) rest tt Q
        → Takes (P s q) (get_state G (the k) >>= with_some (unless_ended rest)) tt Q
    from_state k rest goes_on h =
        >>=-Takes (get_state G (the k)) (with_some (unless_ended rest))
          (get_state-Takes U uuid_dec nil_uuid before uuids some_ids k)
          (>>=-Takes (unwrap (some (s k))) (unless_ended rest) (return-Takes (s k)) (rw goes_on h))

    from_parent :
        (k : Game) (p : StateId Game U) (rest : Step)
        → above U uuid_dec nil_uuid uuids k ≡ some p
        → Takes (P s q) rest tt Q
        → Takes (P s q) (get_parent_id G (the k) >>= with_some (λ (_ : StateId Game U). rest)) tt Q
    from_parent k p rest e h =
        >>=-Takes (get_parent_id G (the k)) (with_some (λ (_ : StateId Game U). rest))
          (get_parent_id-Takes U uuid_dec nil_uuid before uuids some_ids k)
          (rw e (>>=-Takes (unwrap (some p)) (λ (_ : StateId Game U). rest) (return-Takes p) h))

    pub enter_ping :
        (input : PingInput U)
        → is_terminal G (s ping) ≡ false
        → Takes (P s q) (ping_step U uuid_dec nil_uuid now (the ping) input) tt Q
        → Takes (P s q) (ping_process U uuid_dec nil_uuid now (the ping) (ping_input input)) tt Q
    unfolding ping_process
    enter_ping input goes_on h =
        from_parent ping (the menu)
          (get_state G (the ping)
            >>= with_some (unless_ended (ping_step U uuid_dec nil_uuid now (the ping) input)))
          refl (from_state ping (ping_step U uuid_dec nil_uuid now (the ping) input) goes_on h)

    pub enter_pong :
        (input : PongInput U)
        → is_terminal G (s pong) ≡ false
        → Takes (P s q) (pong_step U uuid_dec nil_uuid now (the pong) input) tt Q
        → Takes (P s q) (pong_process U uuid_dec nil_uuid now (the pong) (pong_input input)) tt Q
    unfolding pong_process
    enter_pong input goes_on h =
        from_state pong
          (get_parent_id G (the pong)
            >>= with_some
                (λ (_ : StateId Game U). pong_step U uuid_dec nil_uuid now (the pong) input))
          goes_on
          (from_parent pong (the menu) (pong_step U uuid_dec nil_uuid now (the pong) input) refl h)

    pub enter_menu :
        (ping_uuid pong_uuid : U) (input : MenuInput)
        → is_terminal G (s menu) ≡ false
        → Takes (P s q) (menu_step U uuid_dec nil_uuid ping_uuid pong_uuid (the menu) input) tt Q
        → Takes
            (P s q)
            (menu_process U uuid_dec nil_uuid ping_uuid pong_uuid (the menu) (menu_input input))
            tt
            Q
    unfolding menu_process
    enter_menu ping_uuid pong_uuid input goes_on h =
        let rest = menu_step U uuid_dec nil_uuid ping_uuid pong_uuid (the menu) input in
        >>=-Takes (get_state G (the menu))
          (λ (o : Option GameState). if ends U uuid_dec nil_uuid o then return tt else rest)
          (get_state-Takes U uuid_dec nil_uuid before uuids some_ids menu) (rw goes_on h)
