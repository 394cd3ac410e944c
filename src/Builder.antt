-- ===== src/Builder.antt =====
-- src/builder.rs: how the parts are put together.
pub mod Config
pub mod Steps
