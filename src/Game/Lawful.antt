-- ===== src/Game/Lawful.antt =====
-- The three machines keep the store linked: what they do, with fresh ids for a new game, are
-- steps of `Manager.Reach`.
use rex_sm.Base.{ℕ, ◌≡◌, refl, ap, List, [], ◌∷◌, Result, ltb, natb}
use rex_sm.Kind.{Rex, StateId, is_terminal}
use rex_sm.Manager.Action.{Action, lift}
use rex_sm.Manager.World.{World, priority_send}
use rex_sm.Manager.Machine.{complete, fail, set_timeout, return_in, cancel_timeout}
use rex_sm.Manager.Lawful.{
  IsLawful, >>=-IsLawful, >>-IsLawful, if-IsLawful, lift-IsLawful, get_tree-IsLawful, lock-IsLawful,
  get_state-IsLawful, get_parent_id-IsLawful, update-IsLawful, update_state_and_signal-IsLawful,
  modify-IsLawful, rewrite_all-IsLawful,
}
use rex_sm.Game.Types.{
  Game, ping, pong, menu, MenuInput, play, ping_pong_complete, failed_ping, failed_pong, PingInput,
  PongInput, GameInput, ping_input, pong_input, menu_input, Packet, WhoHolds,
}
use rex_sm.Game.Machines.{
  R, push_signal, ignore, return_packet, cancel_all, visited, fail_all, hold_or_return, ping_step,
  pong_step, ping_process, pong_process, menu_step, menu_process, failed_of, ends, test_timeout,
  holds,
}

module _ (U : Type 0) (uuid_dec : Discrete U) (nil_uuid : U) where
  abbrev G : Rex
  G = R U uuid_dec nil_uuid

  push_signal-IsLawful :
      (i : StateId Game U) (input : GameInput U)
      → IsLawful G (push_signal U uuid_dec nil_uuid i input)
  unfolding push_signal
  push_signal-IsLawful i input = modify-IsLawful G _ λ w. refl

  timeout-IsLawful : (now : ℕ) (i : StateId Game U) (d : ℕ) → IsLawful G (set_timeout G now i d)
  unfolding set_timeout priority_send
  timeout-IsLawful now i d = modify-IsLawful G _ λ w. refl

  cancel-IsLawful : (i : StateId Game U) → IsLawful G (cancel_timeout G i)
  unfolding cancel_timeout priority_send
  cancel-IsLawful i = modify-IsLawful G _ λ w. refl

  return_in-IsLawful :
      (now : ℕ) (i : StateId Game U) (packet : Packet U) (d : ℕ)
      → IsLawful G (return_in G now i packet d)
  unfolding return_in priority_send
  return_in-IsLawful now i packet d = modify-IsLawful G _ λ w. refl

  return_packet-IsLawful :
      (i : StateId Game U) (packet : Packet U)
      → IsLawful G (return_packet U uuid_dec nil_uuid i packet)
  unfolding return_packet
  return_packet-IsLawful i packet = by_kind i.kind
    where
      packet' : Packet U
      packet' = record packet { sender = i }

      by_kind :
          (k : Game)
          → IsLawful G (elim k as (λ _. Action (World G) (Unit {0})) [
            | ping ↦
                push_signal U uuid_dec nil_uuid packet.sender
                  (pong_input (PongInput.packet packet'))
            | pong ↦
                push_signal U uuid_dec nil_uuid packet.sender
                  (ping_input (PingInput.packet packet'))
            | menu ↦ lift Result.panic
          ])
      by_kind ping = push_signal-IsLawful packet.sender (pong_input (PongInput.packet packet'))
      by_kind pong = push_signal-IsLawful packet.sender (ping_input (PingInput.packet packet'))
      by_kind menu = lift-IsLawful G Result.panic

  ignore-IsLawful :
      {A : Type 0} (m : Action (World G) A)
      → IsLawful G m
      → IsLawful G (ignore U uuid_dec nil_uuid m)
  ignore-IsLawful m h = >>=-IsLawful G m _ h λ a. lift-IsLawful G _

  complete-IsLawful : (i : StateId Game U) → IsLawful G (ignore U uuid_dec nil_uuid (complete G i))
  unfolding complete
  complete-IsLawful i = ignore-IsLawful _ (update_state_and_signal-IsLawful G i _)

  fail-IsLawful : (i : StateId Game U) → IsLawful G (ignore U uuid_dec nil_uuid (fail G i))
  unfolding fail
  fail-IsLawful i = ignore-IsLawful _ (update_state_and_signal-IsLawful G i _)

  hold_or_return-IsLawful :
      (now : ℕ) (k : Game) (i : StateId Game U) (packet : Packet U)
      → IsLawful G (hold_or_return U uuid_dec nil_uuid now k i packet)
  hold_or_return-IsLawful now k i packet =
      if-IsLawful G _ _ (holds packet.who_holds k) (return_in-IsLawful now i packet packet.msg)
        (return_packet-IsLawful i packet)

  ping_step-IsLawful :
      (now : ℕ) (i : StateId Game U) (input : PingInput U)
      → IsLawful G (ping_step U uuid_dec nil_uuid now i input)
  unfolding ping_step
  ping_step-IsLawful now i (PingInput.start_sending pong_id who_holds) =
      >>-IsLawful G _ _ (update-IsLawful G i _) (push_signal-IsLawful pong_id _)
  ping_step-IsLawful now i (PingInput.packet packet) =
      if-IsLawful G _ _ (ltb packet.msg 25)
        (>>-IsLawful G _ _ (timeout-IsLawful now i test_timeout)
          (hold_or_return-IsLawful now ping i _))
        (>>-IsLawful G _ _ (complete-IsLawful i) (cancel-IsLawful i))
  ping_step-IsLawful now i (PingInput.returned packet) =
      >>-IsLawful G _ _ (timeout-IsLawful now i test_timeout) (return_packet-IsLawful i packet)
  ping_step-IsLawful now i (PingInput.recv_timeout instant) = fail-IsLawful i

  pub ping_process-IsLawful :
      (now : ℕ) (i : StateId Game U) (input : GameInput U)
      → IsLawful G (ping_process U uuid_dec nil_uuid now i input)
  unfolding ping_process
  ping_process-IsLawful now i (pong_input input) = lift-IsLawful G _
  ping_process-IsLawful now i (menu_input input) = lift-IsLawful G _
  ping_process-IsLawful now i (ping_input input) =
      >>=-IsLawful G _ _ (get_parent_id-IsLawful G i) λ p.
        >>=-IsLawful G _ _ (lift-IsLawful G _) λ q. >>=-IsLawful G _ _ (get_state-IsLawful G i) λ o.
          >>=-IsLawful G _ _ (lift-IsLawful G _) λ s.
            if-IsLawful G _ _ (is_terminal G s) (lift-IsLawful G _) (ping_step-IsLawful now i input)

  pong_step-IsLawful :
      (now : ℕ) (i : StateId Game U) (input : PongInput U)
      → IsLawful G (pong_step U uuid_dec nil_uuid now i input)
  unfolding pong_step
  pong_step-IsLawful now i (PongInput.packet packet) =
      if-IsLawful G _ _ (ltb packet.msg 20)
        (>>-IsLawful G _ _ (timeout-IsLawful now i test_timeout) (
          >>-IsLawful G _ _
            (if-IsLawful G _ _ (natb packet.msg 0) (update-IsLawful G i _) (lift-IsLawful G _))
            (hold_or_return-IsLawful now pong i _)))
        (>>-IsLawful G _ _ (complete-IsLawful i)
          (>>-IsLawful G _ _ (cancel-IsLawful i) (push_signal-IsLawful packet.sender _)))
  pong_step-IsLawful now i (PongInput.returned packet) =
      >>-IsLawful G _ _ (timeout-IsLawful now i test_timeout) (return_packet-IsLawful i packet)
  pong_step-IsLawful now i (PongInput.recv_timeout instant) = fail-IsLawful i

  pub pong_process-IsLawful :
      (now : ℕ) (i : StateId Game U) (input : GameInput U)
      → IsLawful G (pong_process U uuid_dec nil_uuid now i input)
  unfolding pong_process
  pong_process-IsLawful now i (ping_input input) = lift-IsLawful G _
  pong_process-IsLawful now i (menu_input input) = lift-IsLawful G _
  pong_process-IsLawful now i (pong_input input) = >>=-IsLawful G _ _ (get_state-IsLawful G i) λ o.
      >>=-IsLawful G _ _ (lift-IsLawful G _) λ s.
        if-IsLawful G _ _ (is_terminal G s) (lift-IsLawful G _) (
          >>=-IsLawful G _ _ (get_parent_id-IsLawful G i)
            λ p. >>=-IsLawful G _ _ (lift-IsLawful G _) λ q. pong_step-IsLawful now i input)

  cancel_all-IsLawful :
      (is : List (StateId Game U)) → IsLawful G (cancel_all U uuid_dec nil_uuid is)
  unfolding cancel_all
  cancel_all-IsLawful [] = lift-IsLawful G _
  cancel_all-IsLawful (i ∷ is) = >>-IsLawful G _ _ (cancel-IsLawful i) (cancel_all-IsLawful is)

  fail_all-IsLawful : (i : StateId Game U) → IsLawful G (fail_all U uuid_dec nil_uuid i)
  unfolding fail_all
  fail_all-IsLawful i = >>=-IsLawful G _ _ (get_tree-IsLawful G i) λ tree.
      >>=-IsLawful G _ _ (lift-IsLawful G _) λ a. >>=-IsLawful G _ _ (lock-IsLawful G a) λ n.
        >>-IsLawful G _ _ (rewrite_all-IsLawful G (failed_of U uuid_dec nil_uuid) a)
          (cancel_all-IsLawful (visited U uuid_dec nil_uuid n))

  menu_step-IsLawful :
      (ping_uuid pong_uuid : U) (i : StateId Game U) (input : MenuInput)
      → ((who_holds : WhoHolds) → ¬ (input ≡ play who_holds))
      → IsLawful G (menu_step U uuid_dec nil_uuid ping_uuid pong_uuid i input)
  unfolding menu_step
  menu_step-IsLawful ping_uuid pong_uuid i (play who_holds) other = elim (other who_holds refl) [ ]
  menu_step-IsLawful ping_uuid pong_uuid i ping_pong_complete other = complete-IsLawful i
  menu_step-IsLawful ping_uuid pong_uuid i failed_ping other = fail_all-IsLawful i
  menu_step-IsLawful ping_uuid pong_uuid i failed_pong other = fail_all-IsLawful i

  pub menu_process-IsLawful :
      (ping_uuid pong_uuid : U) (i : StateId Game U) (input : GameInput U)
      → ((who_holds : WhoHolds) → ¬ (input ≡ menu_input (play who_holds)))
      → IsLawful G (menu_process U uuid_dec nil_uuid ping_uuid pong_uuid i input)
  unfolding menu_process
  menu_process-IsLawful ping_uuid pong_uuid i (ping_input input) other = lift-IsLawful G _
  menu_process-IsLawful ping_uuid pong_uuid i (pong_input input) other = lift-IsLawful G _
  menu_process-IsLawful ping_uuid pong_uuid i (menu_input input) other =
      >>=-IsLawful G _ _ (get_state-IsLawful G i) λ o.
        if-IsLawful G _ _ (ends U uuid_dec nil_uuid o) (lift-IsLawful G _) (
          menu_step-IsLawful ping_uuid pong_uuid i input
            λ who_holds e. other who_holds (ap menu_input e))
