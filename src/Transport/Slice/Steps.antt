-- ===== src/Transport/Slice/Steps.antt =====
-- The steps of the decoders over images on the wire.
use zenoh_ros2_nostd.Common.{ℕ, ◌+◌, ◌<◌, ◌≡◌, List, ◌++◌, length, drop_front, ok}
use zenoh_ros2_nostd.Transport.Reader.{usize_size, read_with}
use zenoh_ros2_nostd.Transport.Vbyte.{decode_vbyte, u64_size}
use zenoh_ros2_nostd.Transport.Vbyte.Encode.{vbyte}
use zenoh_ros2_nostd.Transport.Vbyte.Decode.{decode_vbyte-vbyte}
use zenoh_ros2_nostd.Transport.Slice.{decode_slice}
use zenoh_ros2_nostd.Transport.Slice.RoundTrip.{slice_image, decode_slice-slice_image}

pub read_vbyte :
    (v pos : ℕ) (rest : List ℕ)
    → v < u64_size
    → read_with decode_vbyte pos (vbyte v ++ rest) ≡ ok (v, pos + length (vbyte v), rest)
unfolding read_with
read_vbyte v pos rest h = rw (decode_vbyte-vbyte v rest h, drop_front)

pub read_slice :
    (bytes : List ℕ) (pos : ℕ) (rest : List ℕ)
    → length bytes + 10 < usize_size
    → read_with decode_slice pos (slice_image bytes ++ rest)
      ≡ ok (bytes, pos + length (slice_image bytes), rest)
unfolding read_with
read_slice bytes pos rest h =
    rw (decode_slice-slice_image bytes rest h, drop_front (slice_image bytes) rest)
