-- ===== src/Error.antt =====
-- src/error.rs and src/cdr/error.rs: the error types of the crate.
pub mod Top
use zenoh_ros2_nostd.Common.{Outcome}

pub data TransportError : Type 0 where
  io handshake_failed version_mismatch frame_too_large : TransportError
  invalid_encoding connection_closed keep_alive_timeout : TransportError

-- What a call of the transport layer ends in.
abbrev pub Wire {ℓ} : Type ℓ → Type ℓ
Wire A = Outcome TransportError A
