-- ===== src/Transport/Codec/Attachment.antt =====
-- src/transport/codec.rs: the rmw_zenoh attachment that `encode_push_put_with_attachment` and
-- `encode_request_query` write in the same way.
pub mod Length
use zenoh_ros2_nostd.Common.{ℕ, ◌-◌, min, List, [], ◌∷◌, ◌++◌, length, take, replicate}
use zenoh_ros2_nostd.Common.Words.{le_bytes}
use zenoh_ros2_nostd.Transport.Writer.{Encoder, write_slice}
use zenoh_ros2_nostd.Transport.Protocol.{ZenohId, as_bytes}

abbrev pub attachment_len : ℕ
attachment_len = 33

-- `gid_bytes[..gid_copy_len]`, and zeros up to 16 bytes.
unfoldable pub gid_field : ZenohId → List ℕ
gid_field gid =
    let n = min (length (as_bytes gid)) 16 in take n (as_bytes gid) ++ replicate (16 - n) 0

-- The sequence number and the time as i64, the length of the identifier, and the identifier.
unfoldable pub attachment : ℕ → ℕ → ZenohId → List ℕ
attachment seq_num timestamp_ns gid =
    le_bytes 8 seq_num ++ (le_bytes 8 timestamp_ns ++ (16 ∷ gid_field gid))

-- One guard for the 33 bytes.
abbrev pub write_attachment : ℕ → ℕ → ZenohId → Encoder
write_attachment seq_num timestamp_ns gid = write_slice (attachment seq_num timestamp_ns gid)
