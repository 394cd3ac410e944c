-- ===== src/Game.antt =====
-- src/manager.rs, `mod tests`: a program of three state machines, as an instance of the interface.
pub mod Types
pub mod Machines
pub mod Terminal
pub mod Lawful
pub mod Start
pub mod History
pub mod Failure
pub mod Phase
pub mod Enter
pub mod Volley
pub mod Match
pub mod Finish
