-- ===== src/State.antt =====
-- internal/state
pub mod Types
pub mod File
pub mod Atomic
pub mod Cell
