-- ===== src/Sound.antt =====
-- habisound/lib/sid.js and interpreter.js: the sound driver.
pub mod Sid
pub mod Voice
pub mod Decode
pub mod Player
pub mod Valid
pub mod Kept
pub mod Invariant
pub mod Ramp
pub mod Playing
pub mod Examples
