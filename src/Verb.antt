-- ===== src/Verb.antt =====
-- habiworld/lib/behaviors: the verbs of our own avatar, as programs over the client's callbacks.
pub mod Program
pub mod Pause
pub mod Context
pub mod Walking
pub mod Basic
pub mod Carrying
pub mod Openables
pub mod Things
pub mod Held
pub mod Magic
pub mod Machines
pub mod Payments
pub mod Registry
pub mod Dispatch
pub mod Actions
pub mod Keeps
pub mod Ends
pub mod Outcomes
pub mod Doors
pub mod Containers
pub mod Strides
pub mod Sessions
pub mod Alone
pub mod Granted
pub mod Examples
