-- ===== src/Health.antt =====
-- internal/health
pub mod Types
pub mod Evaluate
pub mod Drift
pub mod Service
pub mod Stack
