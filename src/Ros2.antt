-- ===== src/Ros2.antt =====
-- src/ros2: the names under which topics and profiles are known to other nodes.
pub mod Text
pub mod Keyexpr
pub mod Qos
pub mod Mangle
pub mod Channel
pub mod Messages
pub mod Locality
pub mod Subscription
pub mod Publisher
pub mod Liveliness
