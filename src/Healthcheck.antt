-- ===== src/Healthcheck.antt =====
-- internal/healthcheck
pub mod Tracker
pub mod Answers
pub mod Tracked
