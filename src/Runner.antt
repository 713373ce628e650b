-- ===== src/Runner.antt =====
-- internal/runner
pub mod Stabilize
pub mod Sorted
pub mod Alerts
pub mod History
pub mod Streak
pub mod Types
pub mod Cycle
pub mod Persist
pub mod Errors
pub mod Refresh
pub mod Loop
pub mod Options
pub mod Effects
pub mod Phases
