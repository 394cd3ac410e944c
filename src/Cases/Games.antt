-- ===== src/Cases/Games.antt =====
-- src/manager.rs, `mod tests`: the tests that play a game, with a timeout manager or without one.
-- What the runtime chooses is given: the order in which the loops take their turns, and what the
-- clock says at each.
use rex_sm.Base.{
  ℕ, Bool, true, false, Option, none, some, List, [], ◌∷◌, Result, ok, panic, spent, ◌>>=◌, ◌>>◌,
  unwrap, assert, eqb, if◌then◌else◌, map_get, ◌&&◌, ℕ_discrete,
}
use rex_sm.Kind.{Rex, StateId, id_dec}
use rex_sm.Queue.Deque.{StreamableDeque, pop_front, push_back}
use rex_sm.Queue.Deque
use rex_sm.Timeout.Ledger.{Ledger}
use rex_sm.Timeout.Ledger
use rex_sm.Timeout.Manager.{receive, tick}
use rex_sm.Manager.World.{World, get_tree, lock, get_state}
use rex_sm.Node.Tree
use rex_sm.Node.Tree.{Node, node, cons, nil}
use rex_sm.Manager.Dispatch.{new_manager, turn}
use rex_sm.Game.Types.{
  Game, ping, pong, menu, GameState, GameState-discrete, MenuInput, play, ping_pong_complete,
  failed_ping, failed_pong, ping_input, pong_input, menu_input, Packet, WhoHolds, failed_state,
  completed_state, timeout_input, return_item,
}
use rex_sm.Game.Machines.{machines}
use rex_sm.Game.Machines

abbrev pub GameId : Type 0
GameId = StateId Game ℕ

-- the game with natural numbers for the uuids, of which 0 is nil
abbrev game_rex : Rex
game_rex = Machines.R ℕ ℕ_discrete 0

-- The shared objects, the ledger of the timeout manager, and `failures` of the menu.
pub record Table : Type 0 where
  pub world : World game_rex
  pub ledger : Ledger (StateId Game ℕ) (Packet ℕ)
  pub failures : List (StateId Game ℕ × MenuInput)

-- `turns now`: a turn of the signal loop; `delivers`: one of the notification loop, to the timeout
-- manager if there is one; `ticks now`: a tick of the timeout manager.
pub data Choice : Type 0 where
  turns : ℕ → Choice
  delivers : Choice
  ticks : ℕ → Choice

-- `self.failures.insert(id, failure)`, at the end of the turn in which the menu fails
unfoldable pub failure_of : World game_rex → Option (StateId Game ℕ × MenuInput)
failure_of w = elim (pop_front w.signal_queue).1 [
  | none ↦ none
  | some s ↦ elim s.input [
    | ping_input i ↦ none
    | pong_input i ↦ none
    | menu_input i ↦
        let failure =
          if Machines.ends ℕ ℕ_discrete 0 (read (get_state game_rex s.id w).1)
          then none
          else some (s.id, i) in
        elim i [
          | play who_holds ↦ none
          | ping_pong_complete ↦ none
          | failed_ping ↦ failure
          | failed_pong ↦ failure
        ]
  ]
]
  where
    read : Result (Option GameState) → Option GameState
    read (ok s) = s
    read panic = none
    read spent = none

abbrev noted_in :
    Option (GameId × MenuInput) → List (GameId × MenuInput) → List (GameId × MenuInput)
noted_in none l = l
noted_in (some f) l = f ∷ l

module _ (ping_uuid pong_uuid : ℕ) where
  unfoldable pub choose : Table → Choice → Table
  unfolding failure_of
  choose t (turns now) =
      elim (new_manager game_rex (machines ℕ ℕ_discrete 0 ping_uuid pong_uuid now)) [
        | ok m ↦ record t {
          world = (turn game_rex m t.world).0;
          failures = noted_in (failure_of t.world) t.failures;
        }
        | panic ↦ t
        | spent ↦ t
      ]
  choose t delivers =
      let popped = pop_front t.world.notification_queue in
      record t {
        world = record (t.world) { notification_queue = popped.0 };
        ledger = receive (id_dec game_rex) t.ledger popped.1;
      }
  choose t (ticks now) =
      let (l, q) =
        tick (id_dec game_rex) (λ i. timeout_input i.kind) (λ i. return_item i.kind) now t.ledger
          t.world.signal_queue in
      record t { world = record (t.world) { signal_queue = q }; ledger = l }

  unfoldable pub choose_all : Table → List Choice → Table
  unfolding choose
  choose_all t [] = t
  choose_all t (c ∷ cs) = choose_all (choose t c) cs

-- what `build` makes, with a signal in the queue
unfoldable pub built : GameId → WhoHolds → Table
built menu_id who_holds = record {
  world = record {
    signal_queue =
        push_back (Deque.new (record { flags = []; woken = [] }))
          (record { id = menu_id; input = menu_input (play who_holds) });
    notification_queue = Deque.new (record { flags = []; woken = [] });
    state_store = record { trees = λ i. none; heap = [] };
  };
  ledger = Ledger.new;
  failures = [];
}

-- the tree of an id, locked
unfoldable pub tree_of : World game_rex → GameId → Result (Node (StateId Game ℕ) GameState)
tree_of w i = do tree ← (get_tree game_rex i w).1; a ← unwrap tree; (lock game_rex a w).1

abbrev is_state : GameState → GameState → Bool
is_state = eqb GameState-discrete

-- the asserts of the two tests with timeouts on the tree of the menu
unfoldable pub all_failed : GameId → Node (StateId Game ℕ) GameState → Bool
all_failed menu_id (node i s ks (cons (node j ping_s js ms) (cons (node k pong_s ls ns) rest))) =
    eqb (id_dec game_rex) menu_id i
    && is_state (failed_state menu) s
    && is_state (failed_state ping) ping_s
    && is_state (failed_state pong) pong_s
all_failed menu_id n = false

abbrev is_failure : MenuInput → Option MenuInput → Bool
is_failure failed_ping (some failed_ping) = true
is_failure failed_pong (some failed_pong) = true
is_failure i o = false

unfoldable pub timeout_test : WhoHolds → MenuInput → ℕ → ℕ → ℕ → List Choice → Result (Unit {0})
unfolding choose_all built tree_of all_failed
timeout_test who_holds failure menu_uuid ping_uuid pong_uuid choices =
    let menu_id : GameId = record { kind = menu; uuid = menu_uuid } in
    let t = choose_all ping_uuid pong_uuid (built menu_id who_holds) choices in
    do
      n ← tree_of t.world menu_id
      assert (all_failed menu_id n)
      assert (is_failure failure (map_get (id_dec game_rex) t.failures menu_id))

unfoldable pub pong_timeout : ℕ → ℕ → ℕ → List Choice → Result (Unit {0})
unfolding timeout_test
pong_timeout = timeout_test (some ping) failed_pong

unfoldable pub ping_timeout : ℕ → ℕ → ℕ → List Choice → Result (Unit {0})
unfolding timeout_test
ping_timeout = timeout_test (some pong) failed_ping

-- `ctx.state_store.get_tree(id).unwrap().lock().get_state(id).unwrap()`
unfoldable pub state_of : World game_rex → GameId → Result GameState
unfolding tree_of
state_of w i = do n ← tree_of w i; found ← Tree.get_state (id_dec game_rex) n i; unwrap found

unfoldable pub child_ids : Node (StateId Game ℕ) GameState → Result (GameId × GameId)
child_ids (node i s ks (cons (node j ping_s js ms) (cons (node k pong_s ls ns) rest))) = ok (j, k)
child_ids n = panic

unfoldable pub state_machine : ℕ → ℕ → ℕ → List Choice → Result (Unit {0})
unfolding choose_all built state_of child_ids
state_machine menu_uuid ping_uuid pong_uuid choices =
    let menu_id : GameId = record { kind = menu; uuid = menu_uuid } in
    let t = choose_all ping_uuid pong_uuid (built menu_id none) choices in
    do
      n ← tree_of t.world menu_id
      children ← child_ids n
      assert (
          eqb (id_dec game_rex) menu_id ((Tree.id n))
          && is_state (completed_state menu) (Tree.state n))
      ping_s ← state_of t.world children.0
      assert (is_state (completed_state ping) ping_s)
      pong_s ← state_of t.world children.1
      assert (is_state (completed_state pong) pong_s)
