-- ===== src/Swarm.antt =====
-- internal/swarm
pub mod Types
pub mod Image
pub mod Docker
pub mod Service
pub mod Retry
pub mod RetryBounds
pub mod RetrySteps
pub mod RetryEnds
pub mod Pagination
pub mod Pages
pub mod Paging
pub mod Client
pub mod Inventory
pub mod Connect
