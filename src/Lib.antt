-- ===== src/Lib.antt =====
-- rex-sm, a library for hierarchical state machines: a program has state machines of several kinds,
-- each state has an id (a kind and a uuid), and states form trees in which a child tells its parent
-- when its own state changes. What runs is four loops that share two queues and a store: the signal
-- loop hands each signal to the machine of its id's kind, the notification loop sends each message
-- to the processors of its topic, and two of these processors are the timeouts, which turn deadlines
-- into signals, and the ingress, which turns packets into signals and messages into packets.
--
-- Base: results with panics, vectors, sets, ordered maps and hash maps as lists, with their lemmas.
-- Node (src/node.rs): `Tree` has `Node` and its reads, `Zipper` the zipper, `Edit` the operations
--   that change a tree. `Spec` says what a tree is to its clients; the other children compare.
-- Queue (src/queue.rs): `Deque` has `StreamableDeque` (with its `RawDeque`) and `StreamReceiver`;
--   `Wakeups` a receiver that is dropped, `Readers` and `Served` any number of tasks that read.
-- Timeout (src/timeout.rs): `Request` the messages, `Ledger` the `TimeoutLedger`, `Manager` the
--   bodies of the two loops of `init_inner_with_handle`.
-- Kind (src/lib.rs): `StateId`, and the traits `Kind`, `State` and `Rex` as a record that the other
--   modules take as a parameter.
-- Storage (src/storage.rs): `Store` has `StateStore`; `Linked` its invariant, `Grown` a new id,
--   `Rewritten` the states of a whole tree, `Found` a search of all trees.
-- Manager (src/manager.rs): `World` the shared objects and the methods of `SmContext`, `Machine`
--   those of `StateMachine` and `StateMachineExt`, `Dispatch` the `StateMachineManager`; `Reach` what
--   machines that use a fresh id for each new state do to the store, as a step relation, `Lawful`
--   programs within it, `Takes` programs with conditions before and after, `Chain` turns of the signal
--   loop with such conditions; `Found` the reads of a context against a search.
-- Notification (src/notification.rs): `Topics` has `NotificationManager`.
-- Ingress (src/ingress.rs): `Router` has `PacketRouter` and the loops of `IngressAdapter`.
-- Builder (src/builder.rs): `Config` has `RexBuilder`; `Steps` has sequences of its calls.
-- Game (src/manager.rs, `mod tests`): the state machines of the game of ping-pong, as an instance of
--   the interface; `Phase` a game in the store, `Volley` and `Match` its moves.
-- Program: a timeout on its way from a machine to its signal; `Channel` is the channel between the
--   notification manager and the timeout manager, which keeps the order of what is sent.
-- Text (src/timeout.rs, src/lib.rs): `Hms` has `hms_string`, `Display` the texts of ids and
--   operations, `Decimal` how the standard library prints numbers. A text is a list of codes.
-- Cases: the repository's own tests as functions of the model, `Family` that of src/node.rs, `Queues`
--   that of src/queue.rs, with `Schedules` on its schedules, `Timers` those of src/timeout.rs and
--   src/notification.rs, `Routes` those of src/ingress.rs, `Games` those of src/manager.rs; `Support`
--   has src/test_support.rs. What a clock or a scheduler chooses is given.
-- Tests: the theorems at concrete inputs.
--
-- A function of the source is a function of the same name. `&mut self` is a state that is passed and
-- returned; a panic is the value `panic` of `Result`, and what the call has changed by then stays, as
-- it does behind a lock that a panic does not poison. An `Arc` of a locked tree is an address in a
-- heap, an `Arc` of a flag an address in a list of flags, a waker a number. Locks are held for one
-- operation each, so a step of the model is what happens under one lock, or one turn of a loop.
--
-- Loops run on fuel: the descents of a tree have the number of its nodes, which is enough since every
-- turn goes one level down, and the loops that wait for ever are given one turn for each value of the
-- queue and one more, in which they wait. Vector indices are below the length of a vector in
-- memory. The numbers of packets, instants and durations have no largest: the count of a packet of
-- the game is a u64 in the source, to which 5 is added also where it is 20 or more and comes from
-- elsewhere, and from 2^64 - 5 on that addition overflows; an instant that the clock cannot hold is a
-- panic of the source. The model adds the numbers there. Instants and
-- durations are numbers on one scale.
--
-- Not modelled: log lines (but for what `lint_instant` logs), random ids, the runtime
-- that polls the tasks, and channels (a `send` is kept as a call). Equality of kinds, uuids and topics,
-- and the conversions of packets, are parameters. A store is linked if an id points at the one tree
-- that holds it and every id of a tree does; a tree is keyed if `descendant_keys` holds the ids below
-- each node and no id stands twice.
pub mod Base
pub mod Node
pub mod Queue
pub mod Timeout
pub mod Kind
pub mod Storage
pub mod Manager
pub mod Notification
pub mod Ingress
pub mod Builder
pub mod Game
pub mod Program
pub mod Text
pub mod Cases
pub mod Tests
