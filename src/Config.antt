-- ===== src/Config.antt =====
-- internal/config
pub mod Url
pub mod Allowed
pub mod Mapping
pub mod Stacks
pub mod Env
pub mod Types
pub mod Load
pub mod Valid
