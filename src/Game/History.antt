-- ===== src/Game/History.antt =====
-- Histories of games: calls of the three machines in any order, on any ids and inputs, and whatever
-- the rest of the program does to the queues in between.
use rex_sm.Base.{ℕ, ◌≡◌}
use rex_sm.Kind.{Rex, StateId, id_dec}
use rex_sm.Storage.Linked.{IsLinked}
use rex_sm.Manager.World.{World}
use rex_sm.Manager.Reach.{Reach-IsLinked}
use rex_sm.Game.Types.{Game, GameInput, menu_input, play, WhoHolds, menu}
use rex_sm.Game.Machines.{R, ping_process, pong_process, menu_process}
use rex_sm.Game.Lawful.{ping_process-IsLawful, pong_process-IsLawful, menu_process-IsLawful}
use rex_sm.Game.Start.{IsFresh, id_of, menu_process-Started}

module _ (U : Type 0) (uuid_dec : Discrete U) (nil_uuid : U) where
  abbrev G : Rex
  G = R U uuid_dec nil_uuid

  pub data Call (w w' : World G) : Type 0 where
    pings :
        (now : ℕ) (i : StateId Game U) (input : GameInput U)
        → w' ≡ (ping_process U uuid_dec nil_uuid now i input w).0
        → Call w w'
    pongs :
        (now : ℕ) (i : StateId Game U) (input : GameInput U)
        → w' ≡ (pong_process U uuid_dec nil_uuid now i input w).0
        → Call w w'
    menus :
        (ping_uuid pong_uuid : U) (i : StateId Game U) (input : GameInput U)
        → ((who_holds : WhoHolds) → ¬ (input ≡ menu_input (play who_holds)))
        → w' ≡ (menu_process U uuid_dec nil_uuid ping_uuid pong_uuid i input w).0
        → Call w w'
    plays :
        (menu_uuid ping_uuid pong_uuid : U) (who_holds : WhoHolds)
        → IsFresh U uuid_dec nil_uuid w menu_uuid ping_uuid pong_uuid
        → w'
          ≡ (menu_process U uuid_dec nil_uuid ping_uuid pong_uuid
              (id_of U uuid_dec nil_uuid menu menu_uuid)
              (menu_input (play who_holds))
              w).0
        → Call w w'
    queues : w'.state_store ≡ w.state_store → Call w w'

  pub data History (w : World G) : World G → Type 0 where
    start : History w w
    next : {u v : World G} → History w u → Call u v → History w v

  Call-IsLinked :
      {w w' : World G}
      → IsLinked (id_dec G) w.state_store
      → Call w w'
      → IsLinked (id_dec G) w'.state_store
  Call-IsLinked {w} linked (pings now i input e) =
      rw e (
        Reach-IsLinked G linked ((ping_process-IsLawful U uuid_dec nil_uuid now i input).reaches w))
  Call-IsLinked {w} linked (pongs now i input e) =
      rw e (
        Reach-IsLinked G linked ((pong_process-IsLawful U uuid_dec nil_uuid now i input).reaches w))
  Call-IsLinked {w} linked (menus ping_uuid pong_uuid i input other e) = rw e (
      Reach-IsLinked G linked
        ((menu_process-IsLawful U uuid_dec nil_uuid ping_uuid pong_uuid i input other).reaches w))
  Call-IsLinked {w} linked (plays menu_uuid ping_uuid pong_uuid who_holds fresh e) =
      rw e
        (menu_process-Started U uuid_dec nil_uuid w menu_uuid ping_uuid pong_uuid linked fresh
          who_holds).1.store_linked
  Call-IsLinked linked (queues e) = rw e linked

  -- From a linked store, any calls of the three machines, on any ids and inputs, in any order and
  -- whether or not they panic, leave a linked store, if each `Play` is for a menu with three
  -- fresh ids that are not nil.
  pub History-IsLinked :
      {w w' : World G}
      → IsLinked (id_dec G) w.state_store
      → History w w'
      → IsLinked (id_dec G) w'.state_store
  History-IsLinked linked start = linked
  History-IsLinked linked (next h c) = Call-IsLinked (History-IsLinked linked h) c
