-- ===== src/Tests/Wire.antt =====
-- The primitives of the wire format, fragments and frames.
use zenoh_ros2_nostd.Common.{
  ℕ, ◌+◌, ◌-◌, ◌≤◌, ◌<◌, ◌≡◌, refl, List, [], ◌∷◌, ◌++◌, true, false, some, length, take, drop,
  replicate, arith, ok, err,
}
use zenoh_ros2_nostd.Error.{frame_too_large, invalid_encoding}
use zenoh_ros2_nostd.Transport.Writer.{write_byte, ◌⨾◌}
use zenoh_ros2_nostd.Transport.Vbyte.{encode_vbyte, decode_vbyte, u64_size}
use zenoh_ros2_nostd.Transport.Vbyte.Decode.{decode_vbyte-encode_vbyte, decode_vbyte_bounds}
use zenoh_ros2_nostd.Transport.Slice.{decode_slice}
use zenoh_ros2_nostd.Transport.Slice.RoundTrip.{decode_slice_bounds}
use zenoh_ros2_nostd.Transport.Fragment.{new, feed}
use zenoh_ros2_nostd.Transport.Fragment.Refine.{
  pending, gather, new-IsValid, feed_refines, feed-IsValid,
}
use zenoh_ros2_nostd.Tests.MemoryLink.{Memory}

abbrev zeros : List ℕ
zeros = replicate 12 0

encode_300 : encode_vbyte 300 (0 ∷ 0 ∷ 7 ∷ []) ≡ ok (0xac ∷ 0x02 ∷ [], 7 ∷ [])
unfolding encode_vbyte write_byte ◌⨾◌
encode_300 = refl

encode_no_room : encode_vbyte 300 (0 ∷ []) ≡ err frame_too_large
unfolding encode_vbyte write_byte ◌⨾◌
encode_no_room = refl

decode_300 : decode_vbyte (0xac ∷ 0x02 ∷ 9 ∷ []) ≡ ok (300, 2)
unfolding decode_vbyte
decode_300 = refl

decode_cut : decode_vbyte (0xac ∷ []) ≡ err invalid_encoding
unfolding decode_vbyte
decode_cut = refl

decode_vbyte-encode_vbyte_example :
    (w : List ℕ) × (r : List ℕ) × (encode_vbyte 300 zeros ≡ ok (w, r))
    × (1 ≤ length w)
    × (length w ≤ 10)
    × (decode_vbyte (w ++ (9 ∷ [])) ≡ ok (300, length w))
decode_vbyte-encode_vbyte_example =
    decode_vbyte-encode_vbyte 300 zeros (9 ∷ []) (omega arith) (omega arith)

decode_vbyte_bounds_example : (300 < u64_size) × (1 ≤ 2) × (2 ≤ 10) × (2 ≤ 3)
decode_vbyte_bounds_example = decode_vbyte_bounds (0xac ∷ 0x02 ∷ 9 ∷ []) 300 2 decode_300

decode_slice_ab : decode_slice (2 ∷ b'a' ∷ b'b' ∷ 9 ∷ []) ≡ ok (b'a' ∷ b'b' ∷ [], 3)
unfolding decode_slice decode_vbyte
decode_slice_ab = refl

decode_slice_bounds_example :
    (3 ≤ 4)
    × (2 < 3)
    × (3 ≤ 2 + 10)
    × (◌≡◌ {A = List ℕ} (b'a' ∷ b'b' ∷ []) (take 2 (drop (3 - 2) (2 ∷ b'a' ∷ b'b' ∷ 9 ∷ []))))
decode_slice_bounds_example =
    decode_slice_bounds (2 ∷ b'a' ∷ b'b' ∷ 9 ∷ []) (b'a' ∷ b'b' ∷ []) 3 decode_slice_ab

feed_refines_example :
    let (answer, b) = feed 4 (feed 4 (new 4) true (1 ∷ 2 ∷ [])).1 false (3 ∷ []) in
    (answer, pending b) ≡ gather 4 (pending (feed 4 (new 4) true (1 ∷ 2 ∷ [])).1) false (3 ∷ [])
feed_refines_example =
    feed_refines 4 (feed 4 (new 4) true (1 ∷ 2 ∷ [])).1 false (3 ∷ [])
      (feed-IsValid 4 (new 4) true (1 ∷ 2 ∷ []) (new-IsValid 4))

feed_two :
    (feed 4 (feed 4 (new 4) true (1 ∷ 2 ∷ [])).1 false (3 ∷ [])).0 ≡ ok (some (1 ∷ 2 ∷ 3 ∷ []))
unfolding feed new
feed_two = refl

feed_past_the_end : (feed 2 (new 2) false (1 ∷ 2 ∷ 3 ∷ [])).0 ≡ err frame_too_large
unfolding feed new
feed_past_the_end = refl

abbrev inbox : Memory
inbox = ([], 2 ∷ 0 ∷ 7 ∷ 8 ∷ 9 ∷ [])
