-- ===== src/Tests/Messages.antt =====
-- The handshake and the messages of publishers and subscribers.
use zenoh_ros2_nostd.Common.{
  ℕ, ◌≡◌, refl, List, [], ◌∷◌, ◌++◌, true, none, some, length, replicate, arith, ok, panic,
}
use zenoh_ros2_nostd.Transport.Frame.RoundTrip.{frame_image}
use zenoh_ros2_nostd.Transport.Vbyte.Encode.{vbyte}
use zenoh_ros2_nostd.Transport.Vbyte.{decode_vbyte}
use zenoh_ros2_nostd.Transport.Slice.{decode_slice}
use zenoh_ros2_nostd.Transport.Slice.Utf8.{is_utf8}
use zenoh_ros2_nostd.Transport.Reader.{read_with, read_when, read_byte}
use zenoh_ros2_nostd.Transport.Protocol.{ZenohId, from_bytes, as_bytes, router, InitAck}
use zenoh_ros2_nostd.Transport.Codec.Init.{decode_init_ack}
use zenoh_ros2_nostd.Transport.Codec.Init.RoundTrip.{decode_init_ack-init_ack_image}
use zenoh_ros2_nostd.Transport.Codec.Init.Image.{init_ack_image, IsInitAck}
use zenoh_ros2_nostd.Transport.Codec.Opening.{decode_open_ack}
use zenoh_ros2_nostd.Transport.Codec.Opening.RoundTrip.{
  open_ack_image, decode_open_ack-open_ack_image, decode_open_ack_overflow,
}
use zenoh_ros2_nostd.Transport.Codec.Put.{
  encode_push_put, encode_push_put_with_attachment, decode_push_put, read_suffix, read_put_body,
  read_timestamp,
}
use zenoh_ros2_nostd.Transport.Codec.Put.RoundTrip.{decode_push_put-encode_push_put}
use zenoh_ros2_nostd.Transport.Codec.Put.Attached.{decode_push_put-encode_push_put_with_attachment}
use zenoh_ros2_nostd.Transport.Codec.Put.Bounds.{decode_push_put_bounds, EndsWith}
use zenoh_ros2_nostd.Transport.Codec.Extension.Chain.{Extension, plain, numeric}
use zenoh_ros2_nostd.Tests.MemoryLink.{Memory}

abbrev pub router_id : List ℕ
router_id = 1 ∷ 2 ∷ 3 ∷ []

abbrev pub answer : InitAck
answer = record {
  version = 9;
  whatami = router;
  zid = from_bytes router_id;
  cookie = 5 ∷ 6 ∷ [];
  batch_size = none;
}

pub answer-IsInitAck : IsInitAck answer router_id
answer-IsInitAck = record {
  zid = refl;
  some_id = omega arith;
  short_id = omega arith;
  cookie = omega arith;
  batch = λ size e. cc;
}

abbrev pub our_id : ZenohId
our_id = from_bytes (7 ∷ 8 ∷ [])

abbrev pub extra : List Extension
extra = numeric 2 300 ∷ plain 1 ∷ []

abbrev pub inbox : Memory
inbox = (
  [],
  frame_image (init_ack_image 0 extra answer)
      ++ (frame_image (open_ack_image true 10 3) ++ (9 ∷ [])),
)

pub length-our_id : length (as_bytes our_id) ≡ 2
unfolding as_bytes from_bytes
length-our_id = refl

decode_init_ack-init_ack_image_example :
    decode_init_ack (init_ack_image 7 extra answer ++ (4 ∷ []))
    ≡ ok (answer, length (init_ack_image 7 extra answer))
decode_init_ack-init_ack_image_example =
    decode_init_ack-init_ack_image answer router_id 7 extra (4 ∷ []) answer-IsInitAck
      (omega arith, (omega arith, tt))

decode_open_ack-open_ack_image_example :
    decode_open_ack (open_ack_image true 10 3 ++ (4 ∷ []))
    ≡ ok (record { lease_ms = 10_000; initial_sn = 3 }, length (open_ack_image true 10 3))
decode_open_ack-open_ack_image_example =
    decode_open_ack-open_ack_image true 10 3 (4 ∷ []) (omega arith) (omega arith)

decode_open_ack_overflow_example :
    decode_open_ack (0x62 ∷ (vbyte 0xffffffffffffffff ++ (0 ∷ []))) ≡ panic
decode_open_ack_overflow_example =
    decode_open_ack_overflow 0xffffffffffffffff (0 ∷ []) (omega arith) (omega arith)

abbrev pub key : List ℕ
key = b'r' ∷ b't' ∷ []

abbrev pub hello : List ℕ
hello = 1 ∷ 2 ∷ []

decode_push_put-encode_push_put_example :
    (w : List ℕ) × (r : List ℕ) × (encode_push_put key 5 hello (replicate 64 0) ≡ ok (w, r))
    × (decode_push_put (w ++ (7 ∷ []))
        ≡ ok (some (record { scope = 0; key_suffix = key; payload = hello }, length w)))
unfolding is_utf8
decode_push_put-encode_push_put_example =
    decode_push_put-encode_push_put key 5 hello (replicate 64 0) (7 ∷ []) refl (omega arith)
      (omega arith) (omega arith)

decode_push_put-encode_push_put_with_attachment_example :
    (w : List ℕ) × (r : List ℕ) × (encode_push_put_with_attachment key hello 4 1_000 our_id
        (replicate 96 0)
      ≡ ok (w, r))
    × (decode_push_put (w ++ (7 ∷ []))
        ≡ ok (some (record { scope = 0; key_suffix = key; payload = hello }, length w)))
unfolding is_utf8
decode_push_put-encode_push_put_with_attachment_example =
    decode_push_put-encode_push_put_with_attachment key hello 4 1_000 our_id (replicate 96 0)
      (7 ∷ []) refl (omega arith) (omega arith) (omega arith)

abbrev push_hello : List ℕ
push_hello = 0x3d ∷ 0 ∷ 2 ∷ b'r' ∷ b't' ∷ 0x01 ∷ 2 ∷ 1 ∷ 2 ∷ 7 ∷ []

decode_push_put_bounds_example : EndsWith push_hello 9 (1 ∷ 2 ∷ [])
unfolding read_with decode_vbyte read_suffix decode_slice is_utf8 read_when read_byte read_put_body
    read_timestamp
decode_push_put_bounds_example =
    decode_push_put_bounds push_hello (record { scope = 0; key_suffix = key; payload = hello }) 9
      (unfold decode_push_put in refl)
