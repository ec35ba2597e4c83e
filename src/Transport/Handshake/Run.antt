-- ===== src/Transport/Handshake/Run.antt =====
-- The whole handshake against a router that follows the protocol.
use zenoh_ros2_nostd.Common.{ℕ, ◌*◌, Bool, if◌then◌else◌}
use zenoh_ros2_nostd.Transport.Codec.Extension.Chain.{Extension}
use zenoh_ros2_nostd.Transport.Link.{Link}
use zenoh_ros2_nostd.Transport.Protocol.{OpenAck}

-- An answer as `decode_open_ack` makes it of a router's OpenAck.
abbrev pub open_ack : Bool → ℕ → ℕ → OpenAck
open_ack in_seconds lease initial_sn = record {
  lease_ms = if in_seconds then lease * 1000 else lease;
  initial_sn = initial_sn;
}
