-- ===== src/Transition.antt =====
-- internal/transition
pub mod Types
pub mod Detect
pub mod Laws
