-- ===== src/Cases/Schedules.antt =====
-- The test of src/queue.rs under every schedule of its two tasks.
use rex_sm.Base.{ℕ, List, [], ◌∷◌}
use rex_sm.Queue.Deque.{StreamableDeque, StreamReceiver, Poll, ready, pending, take_value}
use rex_sm.Queue.Deque
use rex_sm.Cases.Queues.{Int32, reads}

-- the reads from a poll on
abbrev read_on : ℕ → StreamableDeque Int32 × StreamReceiver × Poll Int32 → List Int32
read_on k (q, r, poll) = elim poll [ ready v ↦ v ∷ reads k q r | pending ↦ [] ]
