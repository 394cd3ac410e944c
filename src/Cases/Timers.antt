-- ===== src/Cases/Timers.antt =====
-- src/timeout.rs and src/notification.rs, `mod tests`. What the clock says is given: the instant at
-- which a test starts, and the instants at which the timeout manager ticks while the test sleeps.
use rex_sm.Base
use rex_sm.Base.{
  ℕ, ◌+◌, ◌-◌, ◌≡◌, refl, Bool, true, false, ◌&&◌, Option, none, some, List, [], ◌∷◌, ◌++◌, map,
  if◌then◌else◌, ltb, natb, eqb, ℕ_discrete,
}
use rex_sm.Kind.{StateId}
use rex_sm.Queue.Deque.{StreamableDeque, pop_front}
use rex_sm.Queue.Deque
use rex_sm.Timeout.Request
use rex_sm.Timeout.Request.{UnaryRequest, Operation, cancel, set, set_timeout, set_timeout_millis}
use rex_sm.Timeout.Ledger.{Ledger}
use rex_sm.Timeout.Ledger
use rex_sm.Timeout.Manager
use rex_sm.Timeout.Manager.{Signal}
use rex_sm.Timeout.History
use rex_sm.Timeout.History.{Event, message, ticks, run}
use rex_sm.Notification.Topics.{Processor, new_processors, dispatch}
use rex_sm.Cases.Support.{
  TestKind, test_kind, TestKind-discrete, TestInput, timed_out, packet, TestMsg, timeout_msg,
  TestTopic, timeout, TestTopic-discrete, get_topic, to_timeout, timeout_input, new_with_u128,
  test_id_dec,
}

abbrev pub TimerRequest : Type 0
TimerRequest = UnaryRequest (StateId TestKind ℕ) (Unit {0})

abbrev return_none : StateId TestKind ℕ → Unit {0} → Option TestInput
return_none i item = none

abbrev pub TimerEvent : Type 0
TimerEvent = Event test_id_dec timeout_input return_none

abbrev pub SignalQueue : Type 0
SignalQueue = StreamableDeque (Signal (StateId TestKind ℕ) TestInput)

-- `timeout_tx.send(Notification(TestMsg::TimeoutInput(request)))`
abbrev pub sent : TimerRequest → TimerEvent
sent r = message (to_timeout (timeout_msg r))

-- the ticks while the test sleeps
abbrev pub slept : List ℕ → List TimerEvent
slept = map ticks

-- the signal queue of a new timeout manager after these events
unfoldable pub signals_after : List TimerEvent → SignalQueue
signals_after events =
    (run test_id_dec timeout_input return_none
      (Ledger.new, Deque.new (record { flags = []; woken = [] })) events).1

-- whether the queue gives up these ids and then nothing
unfoldable pub gives : SignalQueue → List (StateId TestKind ℕ) → Bool
gives q [] = elim (pop_front q).1 [ none ↦ true | some s ↦ false ]
gives q (i ∷ is) =
    let rest = gives (pop_front q).0 is in
    elim (pop_front q).1 [ none ↦ false | some s ↦ eqb test_id_dec i s.id && rest ]

-- whether the first signal is for the id, with a timeout at the instant or later
unfoldable pub first_is : SignalQueue → StateId TestKind ℕ → ℕ → Bool
first_is q i deadline = elim (pop_front q).1 [
  | none ↦ false
  | some s ↦ eqb test_id_dec i s.id && elim s.input [
    | timed_out instant ↦ if ltb instant deadline then false else true
    | packet p ↦ false
  ]
]

unfoldable pub timeout_to_signal : ℕ → ℕ → List ℕ → Bool
unfolding signals_after first_is
timeout_to_signal uuid start while_asleep =
    let test_id = new_with_u128 test_kind uuid in
    first_is (signals_after (sent (set_timeout start test_id 5) ∷ slept while_asleep)) test_id
      (start + 5)

unfoldable pub timeout_cancellation : ℕ → ℕ → List ℕ → List ℕ → Bool
unfolding signals_after gives
timeout_cancellation uuid start first_ticks later_ticks =
    let test_id = new_with_u128 test_kind uuid in
    gives
      (signals_after (
        (sent (set_timeout_millis start test_id 10) ∷ slept first_ticks)
        ++ (sent (record { id = test_id; op = cancel }) ∷ slept later_ticks)))
      []

-- `with_id` and `with_op`
unfoldable pub with_id : TimerRequest → StateId TestKind ℕ → TimerRequest
with_id r i = record r { id = i }

unfoldable pub with_op : TimerRequest → Operation (Unit {0}) → TimerRequest
with_op r op = record r { op = op }

unfoldable pub partial_timeout_cancellation : ℕ → List ℕ → Bool
unfolding signals_after gives with_id with_op
partial_timeout_cancellation now while_asleep =
    let id1 = new_with_u128 test_kind 1 in
    let id2 = new_with_u128 test_kind 2 in
    let id3 = new_with_u128 test_kind 3 in
    let deadline = now + 5 in
    let early_timeout = deadline - 2 in
    let request : TimerRequest = record { id = id1; op = set deadline } in
    gives
      (signals_after (
        sent request
        ∷ sent (with_id request id2)
        ∷ sent (with_id request id3)
        ∷ sent (with_op (with_id request id2) cancel)
        ∷ sent (with_op (with_id request id3) (set early_timeout))
        ∷ slept while_asleep))
      (id3 ∷ id1 ∷ [])

-- what the channel of a sender is given
unfoldable pub received : ℕ → List (ℕ × TestMsg) → List TimerEvent
received tx [] = []
received tx ((t, m) ∷ l) =
    let rest = received tx l in if natb t tx then message (to_timeout m) ∷ rest else rest

-- Two timeout managers subscribe to the topic; each is sent the request and ticks by itself.
unfoldable pub route_to_timeout_manager : ℕ → List ℕ → List ℕ → Bool
unfolding signals_after gives received
route_to_timeout_manager start ticks_one ticks_two =
    let test_id = new_with_u128 test_kind 1 in
    let m = timeout_msg (set_timeout start test_id 1) in
    let subscriber : ℕ → Processor TestTopic ℕ = λ tx. record { topics = timeout ∷ []; tx = tx } in
    let sends =
      dispatch TestTopic-discrete get_topic
        (new_processors TestTopic-discrete [] (subscriber 1 ∷ subscriber 2 ∷ [])) m in
    let given : ℕ → List TimerEvent = λ tx. received tx sends in
    gives (signals_after (given 1 ++ slept ticks_one)) (test_id ∷ [])
    && gives (signals_after (given 2 ++ slept ticks_two)) (test_id ∷ [])

pub timeout_to_signal-passes : timeout_to_signal 7 100 (102 ∷ 105 ∷ 108 ∷ 111 ∷ 114 ∷ []) ≡ true
unfolding timeout_to_signal first_is pop_front run History.step Manager.tick Manager.fire_items
    Manager.values Base.tree_before Base.tree_from Manager.receive to_timeout Manager.apply_op
    set_timeout set_timeout_millis Ledger.set_timeout Ledger.new Manager.fire_timers Base.tree_entry
    Base.set_insert ℕ_discrete Base.tree_modify Base.contains Base.set_remove TestKind-discrete
    new_with_u128 timeout_input signals_after test_id_dec Deque.new Deque.notify_rx Deque.push_front
    Deque.take_value Ledger.cancel_timeout Ledger.remove_old Ledger.retain Ledger.with_key
    Manager.fire Request.from_duration Request.from_millis Base.init_of Base.last_of
timeout_to_signal-passes = refl

pub timeout_cancellation-passes :
    timeout_cancellation 7 100 (101 ∷ []) (104 ∷ 107 ∷ 110 ∷ 113 ∷ []) ≡ true
unfolding timeout_cancellation gives pop_front run History.step Manager.tick Manager.fire_items
    Manager.values Base.tree_before Base.tree_from Manager.receive to_timeout Manager.apply_op
    set_timeout set_timeout_millis Ledger.set_timeout Ledger.new Manager.fire_timers Base.tree_entry
    Base.set_insert ℕ_discrete Base.tree_modify Base.contains Base.set_remove TestKind-discrete
    new_with_u128 timeout_input signals_after test_id_dec Deque.new Deque.notify_rx Deque.push_front
    Deque.take_value Ledger.cancel_timeout Ledger.remove_old Ledger.retain Ledger.with_key
    Manager.fire Request.from_duration Request.from_millis Base.init_of Base.last_of
timeout_cancellation-passes = refl

pub partial_timeout_cancellation-passes :
    partial_timeout_cancellation 100 (102 ∷ 105 ∷ 108 ∷ 111 ∷ 114 ∷ []) ≡ true
unfolding partial_timeout_cancellation gives with_id with_op pop_front run History.step Manager.tick
    Manager.fire_items Manager.values Base.tree_before Base.tree_from Manager.receive to_timeout
    Manager.apply_op set_timeout set_timeout_millis Ledger.set_timeout Ledger.new
    Manager.fire_timers Base.tree_entry Base.set_insert ℕ_discrete Base.tree_modify Base.contains
    Base.set_remove TestKind-discrete new_with_u128 timeout_input signals_after test_id_dec
    Deque.new Deque.notify_rx Deque.push_front Deque.take_value Ledger.cancel_timeout
    Ledger.remove_old Ledger.retain Ledger.with_key Manager.fire Request.from_duration
    Request.from_millis Base.init_of Base.last_of
partial_timeout_cancellation-passes = refl

pub route_to_timeout_manager-passes :
    route_to_timeout_manager 100 (103 ∷ 106 ∷ 109 ∷ []) (101 ∷ 104 ∷ 107 ∷ 110 ∷ []) ≡ true
unfolding route_to_timeout_manager gives received dispatch Base.map_get new_processors
    Base.map_insert TestTopic-discrete get_topic pop_front run History.step Manager.tick
    Manager.fire_items Manager.values Base.tree_before Base.tree_from Manager.receive to_timeout
    Manager.apply_op set_timeout set_timeout_millis Ledger.set_timeout Ledger.new
    Manager.fire_timers Base.tree_entry Base.set_insert ℕ_discrete Base.tree_modify Base.contains
    Base.set_remove TestKind-discrete new_with_u128 timeout_input signals_after test_id_dec
    Deque.new Deque.notify_rx Deque.push_front Deque.take_value Ledger.cancel_timeout
    Ledger.remove_old Ledger.retain Ledger.with_key Manager.fire Request.from_duration
    Request.from_millis Base.init_of Base.last_of
route_to_timeout_manager-passes = refl
