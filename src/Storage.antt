-- ===== src/Storage.antt =====
-- src/storage.rs: the store of all state trees.
pub mod Store
pub mod Linked
pub mod Grown
pub mod Found
pub mod Rewritten
