-- ===== src/Transport/Codec/Attachment/Length.antt =====
-- The length of the attachment.
use zenoh_ros2_nostd.Common.{
  ℕ, ◌≡◌, length, length-append, length-take, length-replicate, take, replicate, min, ◌-◌, ◌++◌,
  ◌∷◌, arith,
}
use zenoh_ros2_nostd.Common.Words.{le_bytes, length-le_bytes}
use zenoh_ros2_nostd.Transport.Protocol.{ZenohId, as_bytes}
use zenoh_ros2_nostd.Transport.Codec.Attachment.{gid_field, attachment}

pub length-gid_field : (gid : ZenohId) → length (gid_field gid) ≡ 16
unfolding gid_field
length-gid_field gid =
    let n = min (length (as_bytes gid)) 16 in
    omega (
      arith,
      length-append (take n (as_bytes gid)) (replicate (16 - n) 0),
      length-take n (as_bytes gid),
      length-replicate {A = ℕ} (16 - n) 0,
    )

-- Whatever the identifier, the attachment has 33 bytes.
pub length-attachment :
    (seq_num timestamp_ns : ℕ) (gid : ZenohId) → length (attachment seq_num timestamp_ns gid) ≡ 33
unfolding attachment
length-attachment seq_num timestamp_ns gid = omega (
  arith,
  length-append (le_bytes 8 seq_num) (le_bytes 8 timestamp_ns ++ (16 ∷ gid_field gid)),
  length-append (le_bytes 8 timestamp_ns) (16 ∷ gid_field gid),
  length-le_bytes 8 seq_num,
  length-le_bytes 8 timestamp_ns,
  length-gid_field gid,
)
