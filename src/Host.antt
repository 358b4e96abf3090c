-- ===== src/Host.antt =====
-- habiworld/lib/behaviors: the handlers of the messages that the server sends after the make storm.
pub mod Message
pub mod Context
pub mod Doors
pub mod Inventory
pub mod Motion
pub mod State
pub mod Choreography
pub mod Devices
pub mod Machines
pub mod Dispatch
pub mod Apply
pub mod Identity
pub mod Indexed
pub mod Returns
pub mod Cases
pub mod Examples
pub mod Sessions
pub mod Shown
pub mod Handling
pub mod Seats
pub mod Resolved
pub mod Fields
pub mod Openables
