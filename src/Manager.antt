-- ===== src/Manager.antt =====
-- src/manager.rs: what a state machine can do through its context, and the signal loop.
pub mod Action
pub mod World
pub mod Machine
pub mod Dispatch
pub mod Machines
pub mod States
pub mod Created
pub mod Found
pub mod Total
pub mod Reach
pub mod Lawful
pub mod Loop
pub mod Takes
pub mod Chain
