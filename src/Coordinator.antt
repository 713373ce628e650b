-- ===== src/Coordinator.antt =====
-- internal/coordinator
pub mod Spawn
pub mod Outcomes
pub mod Turns
pub mod Own
pub mod Others
pub mod Steps
pub mod Isolation
pub mod Fleet
pub mod Threads
pub mod Sections
pub mod Later
pub mod Critical
pub mod Locked
pub mod UnderLock
pub mod Serial
pub mod Waiting
pub mod Lifecycle
pub mod Stopping
pub mod Ending
pub mod Copy
