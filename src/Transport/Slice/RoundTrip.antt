-- ===== src/Transport/Slice/RoundTrip.antt =====
-- The images of slices on the wire, and what the decoders make of them.
use zenoh_ros2_nostd.Common.{
  ℕ, ◌+◌, ◌-◌, ◌%◌, ◌≤◌, ◌<◌, ◌≡◌, List, ◌++◌, append_assoc, length, length-append, length-take,
  length-drop, >>=-eq-ok, take, drop, take_front, drop_front, arith, ok,
}
use zenoh_ros2_nostd.Transport.Writer.{write_slice, write_slice_fits, write_slice-append}
use zenoh_ros2_nostd.Transport.Reader.{usize_size}
use zenoh_ros2_nostd.Transport.Vbyte.{decode_vbyte, u64_size}
use zenoh_ros2_nostd.Transport.Vbyte.Encode.{vbyte, encode_vbyte-vbyte, length-groups}
use zenoh_ros2_nostd.Transport.Vbyte.Decode.{decode_vbyte-vbyte, decode_vbyte_bounds}
use zenoh_ros2_nostd.Transport.Slice.{encode_slice, decode_slice}

-- `[vbyte length][bytes]`
unfoldable pub slice_image : List ℕ → List ℕ
slice_image bytes = vbyte (length bytes) ++ bytes

pub length-slice_image :
    (bytes : List ℕ) → length (slice_image bytes) ≡ length (vbyte (length bytes)) + length bytes
unfolding slice_image
length-slice_image bytes = length-append (vbyte (length bytes)) bytes

pub slice_image_bounds :
    (bytes : List ℕ)
    → (length bytes < length (slice_image bytes)) × (length (slice_image bytes) ≤ length bytes + 10)
slice_image_bounds bytes = omega (arith, length-slice_image bytes, length-groups 9 (length bytes))

pub encode_slice-slice_image :
    (bytes : List ℕ)
    → length bytes < u64_size
    → encode_slice bytes ≡ write_slice (slice_image bytes)
unfolding encode_slice slice_image
encode_slice-slice_image bytes h = rw (encode_vbyte-vbyte _ h, write_slice-append)

pub decode_slice-slice_image :
    (bytes rest : List ℕ)
    → length bytes + 10 < usize_size
    → decode_slice (slice_image bytes ++ rest) ≡ ok (bytes, length (slice_image bytes))
unfolding decode_slice slice_image
decode_slice-slice_image bytes rest h =
    let small : length bytes % usize_size ≡ length bytes = omega arith in
    rw
      (
        append_assoc (vbyte (length bytes)) bytes rest,
        decode_vbyte-vbyte (length bytes) (bytes ++ rest) (omega arith),
        small,
        drop_front,
        take_front,
      )
      (ground (
        arith,
        length-groups 9 (length bytes),
        length-append (vbyte (length bytes)) (bytes ++ rest),
        length-append (vbyte (length bytes)) bytes,
        length-append bytes rest,
      ))

-- A slice goes through the wire unchanged: with room for it, `encode_slice` succeeds, and
-- `decode_slice` finds the same bytes, whatever comes to stand behind them.
pub decode_slice-encode_slice :
    (bytes buf rest : List ℕ)
    → length bytes + 10 < usize_size
    → length bytes + 10 ≤ length buf
    → (w : List ℕ) × (r : List ℕ) × (encode_slice bytes buf ≡ ok (w, r))
      × (length w ≤ length bytes + 10)
      × (decode_slice (w ++ rest) ≡ ok (bytes, length w))
decode_slice-encode_slice bytes buf rest h room = (
  slice_image bytes,
  drop (length (slice_image bytes)) buf,
  rw (encode_slice-slice_image bytes (omega arith))
      (write_slice_fits (slice_image bytes) buf (omega (arith, slice_image_bounds bytes))),
  omega (arith, slice_image_bounds bytes),
  decode_slice-slice_image bytes rest h,
)

-- On any bytes, a slice that `decode_slice` returns lies inside the buffer, behind its header.
pub decode_slice_bounds :
    (buf bytes : List ℕ) (n : ℕ)
    → decode_slice buf ≡ ok (bytes, n)
    → (n ≤ length buf)
      × (length bytes < n)
      × (n ≤ length bytes + 10)
      × (bytes ≡ take (length bytes) (drop (n - length bytes) buf))
unfolding decode_slice
decode_slice_bounds buf bytes n e =
    let ((len, hdr), read, cut) = >>=-eq-ok (decode_vbyte buf) _ e in
    ground (
      arith,
      decode_vbyte_bounds buf len hdr read,
      length-take (len % usize_size) (drop hdr buf),
      length-drop hdr buf,
      cut,
    )
