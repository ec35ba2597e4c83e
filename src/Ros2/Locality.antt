-- ===== src/Ros2/Locality.antt =====
-- src/ros2/locality.rs: how far a message goes.
use zenoh_ros2_nostd.Common.{Bool, true, false}

pub data Locality : Type 0 where
  any session_local remote : Locality

unfoldable pub default_locality : Locality
default_locality = any

-- `== Locality::SessionLocal` and `== Locality::Remote`
abbrev pub is_session_local : Locality → Bool
is_session_local session_local = true
is_session_local any = false
is_session_local remote = false

abbrev pub is_remote : Locality → Bool
is_remote remote = true
is_remote any = false
is_remote session_local = false
