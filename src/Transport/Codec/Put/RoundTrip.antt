-- ===== src/Transport/Codec/Put/RoundTrip.antt =====
-- A published Push as it stands on the wire, and the receiver's decoder on it.
use zenoh_ros2_nostd.Common.{
  ℕ, ◌+◌, ◌*◌, ◌%◌, ◌≤◌, ◌<◌, ◌≡◌, refl, List, [], ◌∷◌, ◌++◌, append_assoc, true, some, length,
  length-append, drop, arith, ◌==◌, if◌then◌else◌, inl, inr, Bool-cases, ok,
}
use zenoh_ros2_nostd.Transport.Writer.{
  write_byte-slice, write_slice, write_slice-append, write_slice_fits, write_when-true,
  write_when-false,
}
use zenoh_ros2_nostd.Transport.Reader.{usize_size, read_byte, read_when}
use zenoh_ros2_nostd.Transport.Vbyte.{u64_size}
use zenoh_ros2_nostd.Transport.Vbyte.Encode.{vbyte, encode_vbyte-vbyte, length-groups}
use zenoh_ros2_nostd.Transport.Slice.RoundTrip.{
  slice_image, encode_slice-slice_image, slice_image_bounds,
}
use zenoh_ros2_nostd.Transport.Slice.Steps.{read_vbyte, read_slice}
use zenoh_ros2_nostd.Transport.Slice.Utf8.{is_utf8}
use zenoh_ros2_nostd.Transport.Codec.Header.{msg_id}
use zenoh_ros2_nostd.Transport.Codec.Put.{
  encode_push_put, decode_push_put, read_suffix, read_timestamp, read_put_body,
}

-- The Put header, the encoding if it is not 0, and the payload.
abbrev pub put_image : ℕ → List ℕ → List ℕ
put_image encoding_id payload =
    if encoding_id == 0
    then (0x01 ∷ []) ++ slice_image payload
    else (0x41 ∷ []) ++ (vbyte (encoding_id * 2 % u64_size) ++ slice_image payload)

-- Push header, scope 0, key, Put.
abbrev pub push_image : List ℕ → ℕ → List ℕ → List ℕ
push_image key encoding_id payload =
    (0x3d ∷ []) ++ (vbyte 0 ++ (slice_image key ++ put_image encoding_id payload))

pub length-push_image :
    (key : List ℕ) (encoding_id : ℕ) (payload : List ℕ)
    → length (push_image key encoding_id payload) ≤ length key + length payload + 42
length-push_image key encoding_id payload = ground (
  arith,
  length-append (vbyte 0) (slice_image key ++ put_image encoding_id payload),
  length-append (slice_image key) (put_image encoding_id payload),
  length-append (vbyte (encoding_id * 2 % u64_size)) (slice_image payload),
  length-groups 9 0,
  length-groups 9 (encoding_id * 2 % u64_size),
  slice_image_bounds key,
  slice_image_bounds payload,
)

pub encode_push_put-push_image :
    (key : List ℕ) (encoding_id : ℕ) (payload : List ℕ)
    → length key < u64_size
    → length payload < u64_size
    → encode_push_put key encoding_id payload ≡ write_slice (push_image key encoding_id payload)
unfolding encode_push_put
encode_push_put-push_image key encoding_id payload hk hp = elim (Bool-cases (encoding_id == 0)) [
  | inl z ↦
      rw
        (
          z,
          write_when-false,
          encode_vbyte-vbyte 0 (omega arith),
          encode_slice-slice_image key hk,
          encode_slice-slice_image payload hp,
        )
        (simp (write_byte-slice, write_slice-append))
  | inr z ↦
      rw
        (
          z,
          write_when-true,
          encode_vbyte-vbyte 0 (omega arith),
          encode_vbyte-vbyte (encoding_id * 2 % u64_size) (omega arith),
          encode_slice-slice_image key hk,
          encode_slice-slice_image payload hp,
        )
        (simp (write_byte-slice, write_slice-append))
]

pub read_key :
    (key : List ℕ) (pos : ℕ) (rest : List ℕ)
    → is_utf8 key ≡ true
    → length key + 10 < usize_size
    → read_suffix true pos (slice_image key ++ rest)
      ≡ ok (key, pos + length (slice_image key), rest)
unfolding read_suffix
read_key key pos rest u h = rw (read_slice key pos rest h, u)

-- The body of a Put with no flag, and of one with an encoding.
pub read_plain :
    (payload : List ℕ) (pos : ℕ) (rest : List ℕ)
    → length payload + 10 < usize_size
    → read_put_body 0x01 pos (slice_image payload ++ rest)
      ≡ ok (payload, pos + length (slice_image payload), rest)
unfolding read_put_body read_timestamp read_when
read_plain payload pos rest h = read_slice payload pos rest h

pub read_encoded :
    (encoding : ℕ) (payload : List ℕ) (pos : ℕ) (rest : List ℕ)
    → encoding < u64_size
    → length payload + 10 < usize_size
    → read_put_body 0x41 pos (vbyte encoding ++ (slice_image payload ++ rest))
      ≡ ok (payload, pos + length (vbyte encoding) + length (slice_image payload), rest)
unfolding read_put_body read_timestamp read_when
read_encoded encoding payload pos rest he h = rw (
  read_vbyte encoding pos (slice_image payload ++ rest) he,
  read_slice payload (pos + length (vbyte encoding)) rest h,
)

-- A Push with a Put of the given header, and what stands behind that header.
abbrev pub push_with : List ℕ → ℕ → List ℕ → List ℕ
push_with key header tail = (0x3d ∷ []) ++ (vbyte 0 ++ (slice_image key ++ (header ∷ tail)))

pub decode_push_with :
    (key : List ℕ) (header : ℕ) (tail payload rest : List ℕ)
    → is_utf8 key ≡ true
    → length key + 10 < usize_size
    → msg_id header ≡ 0x01
    → ((pos : ℕ) → read_put_body header pos (tail ++ rest) ≡ ok (payload, pos + length tail, rest))
    → decode_push_put (push_with key header tail ++ rest)
      ≡ ok (
          some (
            record { scope = 0; key_suffix = key; payload = payload },
            length (push_with key header tail),
          ))
unfolding decode_push_put read_when read_byte
decode_push_with key header tail payload rest u hk hm body =
    rw
      (
        append_assoc (vbyte 0) (slice_image key ++ (header ∷ tail)) rest,
        append_assoc (slice_image key) (header ∷ tail) rest,
        read_vbyte 0 1 (slice_image key ++ (header ∷ (tail ++ rest))) (omega arith),
        read_key key (1 + length (vbyte 0)) (header ∷ (tail ++ rest)) u hk,
        hm,
        body (1 + length (vbyte 0) + length (slice_image key) + 1),
      )
      (ground (
        arith,
        length-append (vbyte 0) (slice_image key ++ (header ∷ tail)),
        length-append (slice_image key) (header ∷ tail),
      ))

pub decode_push_put-push_image :
    (key : List ℕ) (encoding_id : ℕ) (payload rest : List ℕ)
    → is_utf8 key ≡ true
    → length key + 10 < usize_size
    → length payload + 10 < usize_size
    → decode_push_put (push_image key encoding_id payload ++ rest)
      ≡ ok (
          some (
            record { scope = 0; key_suffix = key; payload = payload },
            length (push_image key encoding_id payload),
          ))
decode_push_put-push_image key encoding_id payload rest u hk hp =
    elim (Bool-cases (encoding_id == 0)) [
      | inl z ↦ rw z (
          decode_push_with key 0x01 (slice_image payload) payload rest u hk refl
            (λ pos. read_plain payload pos rest hp))
      | inr z ↦ rw z (
          decode_push_with key 0x41 (vbyte (encoding_id * 2 % u64_size) ++ slice_image payload)
            payload rest u hk refl
            (λ pos.
              rw
                (
                  append_assoc (vbyte (encoding_id * 2 % u64_size)) (slice_image payload) rest,
                  read_encoded (encoding_id * 2 % u64_size) payload pos rest (omega arith) hp,
                )
                (ground (
                  arith,
                  length-append (vbyte (encoding_id * 2 % u64_size)) (slice_image payload),
                ))))
    ]

-- What a publisher puts on the wire is what a subscriber takes off it: with room for it,
-- `encode_push_put` succeeds for every encoding, and whatever follows, `decode_push_put` returns
-- the same key and payload, and the position right behind the message.
pub decode_push_put-encode_push_put :
    (key : List ℕ) (encoding_id : ℕ) (payload buf rest : List ℕ)
    → is_utf8 key ≡ true
    → length key + 10 < usize_size
    → length payload + 10 < usize_size
    → length key + length payload + 42 ≤ length buf
    → (w : List ℕ) × (r : List ℕ) × (encode_push_put key encoding_id payload buf ≡ ok (w, r))
      × (decode_push_put (w ++ rest)
          ≡ ok (some (record { scope = 0; key_suffix = key; payload = payload }, length w)))
decode_push_put-encode_push_put key encoding_id payload buf rest u hk hp room = (
  push_image key encoding_id payload,
  drop (length (push_image key encoding_id payload)) buf,
  rw (encode_push_put-push_image key encoding_id payload (omega arith) (omega arith)) (
      write_slice_fits (push_image key encoding_id payload) buf
        (omega (arith, length-push_image key encoding_id payload))),
  decode_push_put-push_image key encoding_id payload rest u hk hp,
)
