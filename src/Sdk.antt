-- ===== src/Sdk.antt =====
-- src/sdk: the node that an application holds.
pub mod Statics
pub mod Node
pub mod Topics
pub mod Routing
pub mod Register
pub mod Timers
pub mod World
pub mod Drain
pub mod Spin
pub mod Service
