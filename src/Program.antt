-- ===== src/Program.antt =====
-- The parts of the program together: src/manager.rs, src/notification.rs and src/timeout.rs.
pub mod Channel
pub mod Deadlines
