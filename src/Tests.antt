-- ===== src/Tests.antt =====
-- Witnesses: the theorems at concrete inputs.
mod Nodes
mod Queues
mod Timeouts
mod Worlds
mod Managers
mod Routes
mod Builders
mod Games
mod Histories
mod Plays
mod Programs
mod Texts
mod Readers
