-- ===== src/Kernel.antt =====
-- The pure part of habiworld/lib/behaviors/kernel.js: where an avatar walks to.
pub mod Walk
pub mod Bounds
pub mod Climb
pub mod Examples
