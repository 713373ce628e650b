-- ===== src/Notify.antt =====
-- internal/notify
pub mod Slack
pub mod Batches
pub mod Poster
pub mod Posting
pub mod Fanout
pub mod Limits
pub mod Pacing
