-- ===== src/Metrics.antt =====
-- internal/metrics
pub mod Client
pub mod Collectors
pub mod Totals
pub mod Published
pub mod Readings
pub mod Cycles
pub mod Saved
