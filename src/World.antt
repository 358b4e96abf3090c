-- ===== src/World.antt =====
-- habiworld/lib/world.js, openable.js and constants.js: the mirror of one region's state.
pub mod Object
pub mod Table
pub mod Contents
pub mod Delete
pub mod Identity
pub mod Tables
pub mod Removal
pub mod Index
pub mod Orphans
pub mod Untouched
pub mod Depth
pub mod Ranks
pub mod Examples
pub mod Deletion
pub mod Seating
pub mod Lookup
pub mod Effects
pub mod Make
