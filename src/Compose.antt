-- ===== src/Compose.antt =====
-- internal/compose
pub mod Types
pub mod Names
pub mod Parse
pub mod Project
pub mod Fetch
pub mod Fetching
