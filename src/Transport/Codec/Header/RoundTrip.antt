-- ===== src/Transport/Codec/Header/RoundTrip.antt =====
-- The header of a Frame, and the kinds of the messages that the client sends.
use zenoh_ros2_nostd.Common.{
  ℕ, ◌≤◌, ◌<◌, ◌≡◌, refl, List, ◌∷◌, ◌++◌, Bool, true, false, length, drop, arith, if◌then◌else◌,
  ok,
}
use zenoh_ros2_nostd.Transport.Writer.{
  write_byte-slice, write_slice, write_slice-append, write_slice_fits,
}
use zenoh_ros2_nostd.Transport.Reader.{read_when}
use zenoh_ros2_nostd.Transport.Vbyte.{u64_size}
use zenoh_ros2_nostd.Transport.Vbyte.Encode.{vbyte, encode_vbyte-vbyte, length-groups}
use zenoh_ros2_nostd.Transport.Vbyte.Decode.{decode_vbyte-vbyte}
use zenoh_ros2_nostd.Transport.Codec.Header.{
  encode_frame_header, decode_frame_header, parse_transport_msg_kind, frame,
}

abbrev pub frame_header_image : ℕ → Bool → List ℕ
frame_header_image sn reliable = (if reliable then 0x25 else 0x05) ∷ vbyte sn

pub length-frame_header_image :
    (sn : ℕ) (reliable : Bool)
    → (2 ≤ length (frame_header_image sn reliable)) × (length (frame_header_image sn reliable) ≤ 11)
length-frame_header_image sn reliable =
    let (low, high) = length-groups 9 sn in (omega arith, omega arith)

pub encode_frame_header-image :
    (sn : ℕ) (reliable : Bool)
    → sn < u64_size
    → encode_frame_header sn reliable ≡ write_slice (frame_header_image sn reliable)
unfolding encode_frame_header
encode_frame_header-image sn true h =
    rw (encode_vbyte-vbyte sn h) (simp (write_byte-slice, write_slice-append))
encode_frame_header-image sn false h =
    rw (encode_vbyte-vbyte sn h) (simp (write_byte-slice, write_slice-append))

pub decode_frame_header-image :
    (sn : ℕ) (reliable : Bool) (body : List ℕ)
    → sn < u64_size
    → decode_frame_header (frame_header_image sn reliable ++ body)
      ≡ ok (sn, reliable, length (frame_header_image sn reliable))
unfolding decode_frame_header read_when
decode_frame_header-image sn true body h = rw (decode_vbyte-vbyte sn body h) (ground arith)
decode_frame_header-image sn false body h = rw (decode_vbyte-vbyte sn body h) (ground arith)

-- A frame header with any u64 as sequence number fits 11 bytes. The decoder reads the sequence
-- number and the channel back from it, whatever the body, and reports where the body begins; the
-- receiver's dispatch takes the message for a Frame.
pub decode_frame_header-encode_frame_header :
    (sn : ℕ) (reliable : Bool) (buf body : List ℕ)
    → sn < u64_size
    → 11 ≤ length buf
    → (header : ℕ) × (w : List ℕ) × (r : List ℕ) × (encode_frame_header sn reliable buf
        ≡ ok (header ∷ w, r))
      × (decode_frame_header ((header ∷ w) ++ body) ≡ ok (sn, reliable, length (header ∷ w)))
      × (parse_transport_msg_kind header ≡ frame)
unfolding parse_transport_msg_kind
decode_frame_header-encode_frame_header sn reliable buf body h room = (
  if reliable then 0x25 else 0x05,
  vbyte sn,
  drop (length (frame_header_image sn reliable)) buf,
  rw (encode_frame_header-image sn reliable h) (
      write_slice_fits (frame_header_image sn reliable) buf
        (omega (arith, length-frame_header_image sn reliable))),
  decode_frame_header-image sn reliable body h,
  kind reliable,
)
  where
    kind : (r : Bool) → parse_transport_msg_kind (if r then 0x25 else 0x05) ≡ frame
    kind true = refl
    kind false = refl
