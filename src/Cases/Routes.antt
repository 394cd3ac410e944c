-- ===== src/Cases/Routes.antt =====
-- src/ingress.rs, `mod tests`. What is sent to the network is the list of the packets that it has
-- not yet received; `state_input` and `other_packet` are what src/test_support.rs leaves open.
use rex_sm.Base.{
  ℕ, suc, ◌≡◌, refl, Bool, true, false, ◌&&◌, Option, none, some, List, [], ◌∷◌, ◌++◌, Result, ok,
  panic, spent, ◌>>=◌, ◌>>◌, unwrap, assert, eqb, natb, if◌then◌else◌,
}
use rex_sm.Kind.{StateId}
use rex_sm.Queue.Deque.{
  StreamableDeque, StreamReceiver, stream, poll_next, Poll, ready, pending, push_back,
}
use rex_sm.Queue.Deque
use rex_sm.Timeout.Manager.{Signal}
use rex_sm.Notification.Topics.{Processor, new_processors, pump}
use rex_sm.Ingress.Router
use rex_sm.Notification.Topics
use rex_sm.Base
use rex_sm.Cases.Support
use rex_sm.Ingress.Router.{
  Attempt, failed, StateRouter, new_router, process_inbound, process_outbound,
}
use rex_sm.Builder.Config.{
  BuilderContext, BoxedProcessor, ingress_adapter, Channel, new_connected, with_ingress_adapter,
  build_inner,
}
use rex_sm.Cases.Support.{
  TestKind, test_kind, TestKind-discrete, TestState, TestInput, timed_out, packet, TestMsg,
  ingress_msg, TestTopic, ingress, TestTopic-discrete, Packet, TestId, get_topic, to_packet,
  input_of, kind_of, new_with_u128, test, test_router, test_id_dec, is_packet, unknown, unsupported,
  new_state_text,
}

abbrev packet_suffix : Packet
packet_suffix = b'_' ∷ b'p' ∷ b'a' ∷ b'c' ∷ b'k' ∷ b'e' ∷ b't' ∷ []

abbrev NetworkQueue : Type 0
NetworkQueue = StreamableDeque (Signal (StateId TestKind ℕ) TestInput)

-- what the outbound loop of an adapter with the sender gives to the network
unfoldable pub sent_out : ℕ → List (ℕ × TestMsg) → List Packet
sent_out tx [] = []
sent_out tx ((t, m) ∷ l) =
    let rest = sent_out tx l in
    if natb t tx then process_outbound to_packet (m ∷ []) ++ rest else rest

-- `assert_eq!(Ok(packet), network_rx.try_recv())`
unfoldable pub receive_packet : Packet → List Packet → Result (List Packet)
receive_packet p [] = panic
receive_packet p (sent ∷ rest) = do assert (is_packet p sent); ok rest

unfoldable pub route_to_network : Result (Unit {0})
unfolding sent_out receive_packet
route_to_network =
    let processors =
      new_processors TestTopic-discrete [] (record { topics = ingress ∷ []; tx = 0 } ∷ []) in
    let first =
      push_back (Deque.new (record { flags = []; woken = [] }))
        (ingress_msg (unknown ++ packet_suffix)) in
    let first_sent = pump TestTopic-discrete get_topic 2 processors first in
    let second = push_back first_sent.0 (ingress_msg (unsupported ++ packet_suffix)) in
    let second_sent = pump TestTopic-discrete get_topic 2 processors second in
    do
      network_rx ← receive_packet (unknown ++ packet_suffix) (sent_out 0 first_sent.1)
      received ←
          receive_packet (unsupported ++ packet_suffix) (network_rx ++ sent_out 0 second_sent.1)
      ok tt

-- `==` on a signal with the packet
unfoldable pub is_signal :
    Signal (StateId TestKind ℕ) TestInput → StateId TestKind ℕ → Packet → Bool
is_signal s i p =
    eqb test_id_dec i s.id && elim s.input [ timed_out instant ↦ false | packet q ↦ is_packet p q ]

abbrev is_pending : {A : Type 0} → Poll A → Bool
is_pending pending = true
is_pending (ready a) = false

abbrev value_of : {A : Type 0} → Poll A → Result A
value_of pending = panic
value_of (ready a) = ok a

module _ (state_input : TestKind → TestState → Option TestInput)
    (other_packet : Packet → Attempt (Option (StateId TestKind ℕ))) where
  abbrev Routers : Type 0
  Routers = List (TestKind × StateRouter (test state_input other_packet) Packet)

  abbrev inbound : Routers → Packet → NetworkQueue → NetworkQueue
  inbound m p = process_inbound (test state_input other_packet) kind_of input_of m (p ∷ [])

  -- An unknown packet gives no signal, then a supported one gives its signal; the stream is polled by
  -- the task 0.
  unfoldable pub routes_packets : Routers → Result (Unit {0})
  unfolding is_signal
  routes_packets m =
      let q =
        inbound m (unknown ++ packet_suffix) (Deque.new (record { flags = []; woken = [] })) in
      let (waiting, receiver, poll) = poll_next q stream 0 in
      let (rest, receiver', poll') = poll_next (inbound m new_state_text waiting) receiver 0 in
      do
        assert (is_pending poll)
        signal ← value_of poll'
        assert (is_signal signal (new_with_u128 test_kind 1) new_state_text)

  unfoldable pub route_from_network : Result (Unit {0})
  unfolding routes_packets
  route_from_network = do
    m ← new_router (test state_input other_packet) (test_router state_input other_packet ∷ [])
    routes_packets m

  -- the router of the only processor that is built
  abbrev built_router :
      Option (List (BoxedProcessor (test state_input other_packet) Packet)) → Result Routers
  built_router (some (ingress_adapter topic m channel tx q ∷ [])) = ok m
  built_router nps = panic

  unfoldable pub rex_builder : BuilderContext → ℕ → Channel → Result (Unit {0})
  unfolding routes_packets
  rex_builder c outbound_tx channel =
      let (inbound_tx, builder) =
        new_connected (test state_input other_packet) Packet c outbound_tx channel in
      do
        b ← with_ingress_adapter builder (test_router state_input other_packet ∷ []) ingress
        m ← built_router (build_inner b).0
        routes_packets m

route_to_network-passes : route_to_network ≡ ok tt
unfolding route_to_network Topics.dispatch Base.map_get new_processors Base.map_insert
    TestTopic-discrete get_topic Base.init_of Base.last_of pump push_back to_packet process_outbound
    Deque.new Deque.notify_rx Deque.take_value Deque.pop_front is_packet
route_to_network-passes = refl

module _ (state_input : TestKind → TestState → Option TestInput)
    (other_packet : Packet → Attempt (Option (StateId TestKind ℕ))) where
  route_from_network-passes : route_from_network state_input other_packet ≡ ok tt
  unfolding route_from_network process_inbound Router.get_id new_router input_of kind_of test_router
      Support.route_test Support.starts_with new_with_u128 test_id_dec TestKind-discrete
      Base.map_get Base.map_insert push_back poll_next Deque.new Deque.notify_rx Deque.take_value
      is_packet Base.ℕ_discrete
  route_from_network-passes = refl

  rex_builder-passes :
      (c : BuilderContext) (outbound_tx : ℕ) (channel : Channel)
      → rex_builder state_input other_packet c outbound_tx channel ≡ ok tt
  unfolding rex_builder process_inbound Router.get_id new_router input_of kind_of test_router
      Support.route_test Support.starts_with new_with_u128 test_id_dec TestKind-discrete
      Base.map_get Base.map_insert push_back poll_next Deque.new Deque.notify_rx Deque.take_value
      is_packet Base.ℕ_discrete new_connected with_ingress_adapter build_inner
  rex_builder-passes c outbound_tx channel = refl
