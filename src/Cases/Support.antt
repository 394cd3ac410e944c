-- ===== src/Cases/Support.antt =====
-- src/test_support.rs: the kind of the tests, which is one, its states, inputs and messages, and the
-- router. A packet is a list of bytes.
use rex_sm.Base.{
  ℕ, Bool, true, false, ◌&&◌, Option, none, some, List, [], ◌∷◌, if◌then◌else◌, natb, ℕ_discrete,
}
use rex_sm.Kind.{StateId, Rex}
use rex_sm.Timeout.Request.{UnaryRequest}
use rex_sm.Ingress.Router.{Attempt, done, failed, StateRouter}

pub data TestKind : Type 0 where
  test_kind : TestKind

pub data TestTopic : Type 0 where
  timeout ingress other : TestTopic

pub data TestState : Type 0 where
  new_stage awaiting completed failed_stage : TestState

unfoldable pub TestKind-discrete : Discrete TestKind
TestKind-discrete = hlevel

unfoldable pub TestTopic-discrete : Discrete TestTopic
TestTopic-discrete = hlevel

unfoldable pub TestState-discrete : Discrete TestState
TestState-discrete = hlevel

-- `InPacket` and `OutPacket`
abbrev pub Packet : Type 0
Packet = List ℕ

pub data TestInput : Type 0 where
  timed_out : ℕ → TestInput
  packet : Packet → TestInput

abbrev pub TestId : Type 0
TestId = StateId TestKind ℕ

unfoldable pub test_id_dec : Discrete (StateId TestKind ℕ)
test_id_dec = hlevel (TestKind-discrete, ℕ_discrete)

-- `NoRetain` has one value.
pub data TestMsg : Type 0 where
  timeout_msg : UnaryRequest (StateId TestKind ℕ) (Unit {0}) → TestMsg
  ingress_msg : Packet → TestMsg
  other_msg : TestMsg

unfoldable pub get_topic : TestMsg → TestTopic
get_topic (timeout_msg r) = timeout
get_topic (ingress_msg p) = ingress
get_topic other_msg = other

-- the two `TryInto`
unfoldable pub to_packet : TestMsg → Attempt Packet
to_packet (ingress_msg p) = done p
to_packet m = failed

unfoldable pub to_timeout : TestMsg → Option (UnaryRequest (StateId TestKind ℕ) (Unit {0}))
to_timeout (timeout_msg r) = some r
to_timeout m = none

unfoldable pub timeout_input : StateId TestKind ℕ → ℕ → Option TestInput
timeout_input i instant = some (timed_out instant)

-- the `TryFrom` of an input and of a kind
unfoldable pub input_of : Packet → Attempt TestInput
input_of p = done (packet p)

unfoldable pub kind_of : Packet → Attempt TestKind
kind_of p = done test_kind

-- `StateId::new_with_u128`
unfoldable pub new_with_u128 : TestKind → ℕ → StateId TestKind ℕ
new_with_u128 k v = record { kind = k; uuid = v }

-- `starts_with`
unfoldable pub starts_with : Packet → Packet → Bool
starts_with bytes [] = true
starts_with [] (c ∷ cs) = false
starts_with (b ∷ bs) (c ∷ cs) = natb b c && starts_with bs cs

-- `==` on packets
unfoldable pub is_packet : Packet → Packet → Bool
is_packet [] [] = true
is_packet [] (c ∷ cs) = false
is_packet (b ∷ bs) [] = false
is_packet (b ∷ bs) (c ∷ cs) = natb b c && is_packet bs cs

abbrev pub unsupported : Packet
unsupported = b'u' ∷ b'n' ∷ b's' ∷ b'u' ∷ b'p' ∷ b'p' ∷ b'o' ∷ b'r' ∷ b't' ∷ b'e' ∷ b'd' ∷ []

abbrev pub unknown : Packet
unknown = b'u' ∷ b'n' ∷ b'k' ∷ b'n' ∷ b'o' ∷ b'w' ∷ b'n' ∷ []

abbrev pub new_state_text : Packet
new_state_text = b'n' ∷ b'e' ∷ b'w' ∷ b'_' ∷ b's' ∷ b't' ∷ b'a' ∷ b't' ∷ b'e' ∷ []

-- The instance, for any `state_input` and any answer of the router to another packet, since the
-- source leaves these two `unimplemented!`.
module _ (state_input : TestKind → TestState → Option TestInput)
    (other_packet : Packet → Attempt (Option (StateId TestKind ℕ))) where
  abbrev pub test : Rex
  test = record {
    Kind = TestKind;
    Uuid = ℕ;
    State = TestState;
    Input = TestInput;
    Message = TestMsg;
    Topic = TestTopic;
    Item = Unit {0};
    kind_dec = TestKind-discrete;
    uuid_dec = ℕ_discrete;
    state_dec = TestState-discrete;
    topic_dec = TestTopic-discrete;
    nil_uuid = 0;
    new_state = λ k. new_stage;
    failed_state = λ k. failed_stage;
    completed_state = λ k. completed;
    as_ref = λ s. test_kind;
    state_input = state_input;
    timeout_input = λ k instant. some (timed_out instant);
    return_item = λ k item. none;
    get_topic = get_topic;
    from_request = timeout_msg;
    try_request = to_timeout;
  }

  -- `TestStateRouter`
  unfoldable pub route_test : Packet → Attempt (Option (StateId TestKind ℕ))
  unfolding starts_with new_with_u128
  route_test p =
      if starts_with p unsupported
      then failed
      else if starts_with p unknown
      then done none
      else if starts_with p new_state_text
      then done (some (new_with_u128 test_kind 1))
      else other_packet p

  unfoldable pub test_router : StateRouter test Packet
  unfolding route_test
  test_router = record { kind = test_kind; get_id = route_test }
