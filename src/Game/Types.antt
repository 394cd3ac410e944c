-- ===== src/Game/Types.antt =====
-- src/manager.rs, `mod tests`: kinds, states, inputs and messages of the game of ping-pong.
use rex_sm.Base.{ℕ, Option, none, some}
use rex_sm.Kind.{Rex, StateId}
use rex_sm.Timeout.Request.{UnaryRequest}

pub data Game : Type 0 where
  ping pong menu : Game

unfoldable pub Game-discrete : Discrete Game
Game-discrete = hlevel

pub data MenuState : Type 0 where
  ready done failed : MenuState

pub data PingState : Type 0 where
  ready sending done failed : PingState

pub data PongState : Type 0 where
  ready responding done failed : PongState

pub data GameState : Type 0 where
  ping_state : PingState → GameState
  pong_state : PongState → GameState
  menu_state : MenuState → GameState

unfoldable pub GameState-discrete : Discrete GameState
GameState-discrete = hlevel

-- `WhoHolds`
abbrev pub WhoHolds : Type 0
WhoHolds = Option Game

pub record Packet (U : Type 0) : Type 0 where
  pub msg : ℕ
  pub sender : StateId Game U
  pub who_holds : WhoHolds

pub data MenuInput : Type 0 where
  play : WhoHolds → MenuInput
  ping_pong_complete failed_ping failed_pong : MenuInput

pub data PingInput (U : Type 0) : Type 0 where
  start_sending : StateId Game U → WhoHolds → PingInput U
  returned : Packet U → PingInput U
  packet : Packet U → PingInput U
  recv_timeout : ℕ → PingInput U

pub data PongInput (U : Type 0) : Type 0 where
  packet : Packet U → PongInput U
  recv_timeout : ℕ → PongInput U
  returned : Packet U → PongInput U

pub data GameInput (U : Type 0) : Type 0 where
  ping_input : PingInput U → GameInput U
  pong_input : PongInput U → GameInput U
  menu_input : MenuInput → GameInput U

unfoldable pub new_state : Game → GameState
new_state ping = ping_state PingState.ready
new_state pong = pong_state PongState.ready
new_state menu = menu_state MenuState.ready

unfoldable pub failed_state : Game → GameState
failed_state ping = ping_state PingState.failed
failed_state pong = pong_state PongState.failed
failed_state menu = menu_state MenuState.failed

unfoldable pub completed_state : Game → GameState
completed_state ping = ping_state PingState.done
completed_state pong = pong_state PongState.done
completed_state menu = menu_state MenuState.done

unfoldable pub as_ref : GameState → Game
as_ref (ping_state s) = ping
as_ref (pong_state s) = pong
as_ref (menu_state s) = menu

module _ {U : Type 0} where
  -- `state_input` of `Menu`; of the other kinds it is `None`
  unfoldable pub menu_state_input : GameState → Option (GameInput U)
  menu_state_input (ping_state PingState.done) = some (menu_input ping_pong_complete)
  menu_state_input (ping_state PingState.failed) = some (menu_input failed_ping)
  menu_state_input (pong_state PongState.failed) = some (menu_input failed_pong)
  menu_state_input s = none

  unfoldable pub state_input : Game → GameState → Option (GameInput U)
  unfolding menu_state_input
  state_input ping s = none
  state_input pong s = none
  state_input menu s = menu_state_input s

  unfoldable pub timeout_input : Game → ℕ → Option (GameInput U)
  timeout_input ping instant = some (ping_input (PingInput.recv_timeout instant))
  timeout_input pong instant = some (pong_input (PongInput.recv_timeout instant))
  timeout_input menu instant = none

  unfoldable pub return_item : Game → Packet U → Option (GameInput U)
  return_item ping item = some (ping_input (PingInput.returned item))
  return_item pong item = some (pong_input (PongInput.returned item))
  return_item menu item = none

-- The game as a `Rex`, for any type of uuids. A `GameMsg` is the request that it wraps.
abbrev pub game : (U : Type 0) → Discrete U → U → Rex
game U uuid_dec nil_uuid = record {
  Kind = Game;
  Uuid = U;
  State = GameState;
  Input = GameInput U;
  Message = UnaryRequest (StateId Game U) (Packet U);
  Topic = Unit {0};
  Item = Packet U;
  kind_dec = Game-discrete;
  uuid_dec = uuid_dec;
  state_dec = GameState-discrete;
  topic_dec = hlevel;
  nil_uuid = nil_uuid;
  new_state = new_state;
  failed_state = failed_state;
  completed_state = completed_state;
  as_ref = as_ref;
  state_input = state_input;
  timeout_input = timeout_input;
  return_item = return_item;
  get_topic = λ m. tt;
  from_request = λ r. r;
  try_request = λ m. some m;
}
