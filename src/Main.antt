-- ===== src/Main.antt =====
-- cmd/swarm-sentinel
pub mod Level
pub mod Start
pub mod Modes
pub mod Probe
