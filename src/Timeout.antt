-- ===== src/Timeout.antt =====
-- src/timeout.rs: the ledger of timeouts, and the two loops of the `TimeoutManager` that use it.
pub mod Request
pub mod Ledger
pub mod Manager
pub mod Count
pub mod Items
pub mod Index
pub mod Fire
pub mod Due
pub mod History
