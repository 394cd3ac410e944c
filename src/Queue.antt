-- ===== src/Queue.antt =====
-- src/queue.rs: the queue of two priorities that the managers read as a stream.
pub mod Deque
pub mod Order
pub mod Wakeups
pub mod Readers
pub mod Served
