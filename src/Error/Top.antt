-- ===== src/Error/Top.antt =====
-- src/error.rs and src/cdr/error.rs: the error of the crate, and the errors of its layers.
use zenoh_ros2_nostd.Error.{TransportError}

pub data CdrError : Type 0 where
  buffer_overflow buffer_underflow invalid_bool invalid_utf8 : CdrError
  string_capacity_exceeded unsupported_encapsulation : CdrError
  serialize_error deserialize_error : CdrError

pub data SessionError : Type 0 where
  resource_limit_reached publisher_limit_reached subscriber_limit_reached : SessionError
  resource_not_found closed : SessionError

pub data Error : Type 0 where
  cdr : CdrError → Error
  transport : TransportError → Error
  session : SessionError → Error
  io_error buffer_full not_connected timeout invalid_argument service_no_reply : Error
