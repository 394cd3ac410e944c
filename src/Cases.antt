-- ===== src/Cases.antt =====
-- The repository's own tests (`mod tests` of its files) as functions of the model, and what they use
-- of src/test_support.rs.
pub mod Family
pub mod Games
pub mod Queues
pub mod Routes
pub mod Schedules
pub mod Support
pub mod Timers
