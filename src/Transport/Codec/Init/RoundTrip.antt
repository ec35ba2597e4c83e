-- ===== src/Transport/Codec/Init/RoundTrip.antt =====
-- How `decode_init_ack` reads what a router sends.
use zenoh_ros2_nostd.Common.{
  ℕ, ◌+◌, ◌/◌, ◌^◌, ◌≤◌, ◌<◌, ◌≡◌, refl, ap, sym, ◌∙◌, bit_and, List, ◌∷◌, ◌++◌, append_assoc, Bool,
  true, false, Option, none, some, length, length-append, take_front, drop_front, le→ltb, ◌==◌, All,
  Bool-cases, inl, inr, ltb, if◌then◌else◌, err, arith, ok,
}
use zenoh_ros2_nostd.Common.Words.{le_bytes, from_le_bytes-le_bytes}
use zenoh_ros2_nostd.Transport.Reader.{read_byte}
use zenoh_ros2_nostd.Transport.Slice.RoundTrip.{slice_image}
use zenoh_ros2_nostd.Transport.Slice.Steps.{read_slice}
use zenoh_ros2_nostd.Transport.Protocol.{as_bytes, from_bytes, InitAck}
use zenoh_ros2_nostd.Transport.Protocol.Bytes.{as_bytes-from_bytes_short}
use zenoh_ros2_nostd.Transport.Protocol.Flags.{init_a, init_s, init_z}
use zenoh_ros2_nostd.Transport.Protocol.Ids.{transport_init}
use zenoh_ros2_nostd.Error.{frame_too_large}
use zenoh_ros2_nostd.Transport.Codec.Extension.Chain.{
  Extension, IsExtension, extended, chain_image, read_when-chain_image,
}
use zenoh_ros2_nostd.Transport.Codec.Header.{has_flag, msg_id}
use zenoh_ros2_nostd.Transport.Codec.Init.{
  whatami_from_2bit, read_fixed, read_batch, decode_init_ack,
}
use zenoh_ros2_nostd.Transport.Codec.Init.Image.{
  zid_flags_fields, flags_byte, zid_flags-flags_byte, batch_image, ack_header, init_ack_image,
  IsInitAck,
}

read_fixed_front :
    (bytes rest : List ℕ) (n pos : ℕ)
    → n ≡ length bytes
    → read_fixed n pos (bytes ++ rest) ≡ ok (bytes, pos + length bytes, rest)
unfolding read_fixed
read_fixed_front bytes rest n pos e = rw (
  e,
  le→ltb (length (bytes ++ rest)) (length bytes) (omega (arith, length-append bytes rest)),
  take_front,
  drop_front,
)

read_batch-image :
    (b : Option ℕ) (more : Bool) (resolution pos : ℕ) (rest : List ℕ)
    → ((size : ℕ) → b ≡ some size → size < 2 ^ 16)
    → read_batch (has_flag (ack_header b more) init_s) pos (batch_image resolution b ++ rest)
      ≡ ok (b, pos + length (batch_image resolution b), rest)
unfolding read_batch
read_batch-image none true resolution pos rest h = ground arith
read_batch-image none false resolution pos rest h = ground arith
read_batch-image (some size) true resolution pos rest h = rw (
  read_fixed_front (resolution ∷ le_bytes 2 size) rest 3 pos refl,
  from_le_bytes-le_bytes 2 size (h size refl),
)
read_batch-image (some size) false resolution pos rest h = rw (
  read_fixed_front (resolution ∷ le_bytes 2 size) rest 3 pos refl,
  from_le_bytes-le_bytes 2 size (h size refl),
)

ack_header_id : (b : Option ℕ) (more : Bool) → (msg_id (ack_header b more) == transport_init) ≡ true
ack_header_id none true = refl
ack_header_id none false = refl
ack_header_id (some size) true = refl
ack_header_id (some size) false = refl

ack_header_a : (b : Option ℕ) (more : Bool) → (bit_and (ack_header b more) init_a == 0) ≡ false
ack_header_a none true = refl
ack_header_a none false = refl
ack_header_a (some size) true = refl
ack_header_a (some size) false = refl

ack_header_z : (b : Option ℕ) (more : Bool) → has_flag (ack_header b more) init_z ≡ more
ack_header_z none true = refl
ack_header_z none false = refl
ack_header_z (some size) true = refl
ack_header_z (some size) false = refl

-- The client reads an InitAck as the router meant it, with any resolution and over any extensions,
-- and stops right behind it, where the cookie has at most 256 bytes; a longer one is an error.
pub decode_init_ack-init_ack_image :
    (ack : InitAck) (id : List ℕ) (resolution : ℕ) (extensions : List Extension) (rest : List ℕ)
    → IsInitAck ack id
    → All IsExtension extensions
    → decode_init_ack (init_ack_image resolution extensions ack ++ rest) ≡ (
        if ltb 256 (length ack.cookie)
        then err frame_too_large
        else ok (ack, length (init_ack_image resolution extensions ack)))
unfolding decode_init_ack read_byte
decode_init_ack-init_ack_image ack id resolution extensions rest v all =
    let bytes = as_bytes ack.zid in
    let batch = batch_image resolution ack.batch_size in
    let more = extended extensions in
    let exts = chain_image extensions in
    let cookie = slice_image ack.cookie in
    let same : bytes ≡ id = ap as_bytes v.zid ∙ as_bytes-from_bytes_short id v.short_id in
    let kept : from_bytes bytes ≡ ack.zid = ap from_bytes same ∙ sym v.zid in
    let lo : 1 ≤ length bytes = omega (arith, v.some_id, ap length same) in
    let hi : length bytes ≤ 16 = omega (arith, v.short_id, ap length same) in
    let flags = zid_flags-flags_byte ack.zid ack.whatami lo hi in
    let (size, known) = zid_flags_fields ack.zid ack.whatami lo hi in
    let size' : flags_byte ack.whatami (length bytes) / 2 ^ 4 + 1 ≡ length bytes =
      ap (λ f. f / 2 ^ 4 + 1) (sym flags) ∙ size in
    let known' : whatami_from_2bit (flags_byte ack.whatami (length bytes)) ≡ ok ack.whatami =
      ap whatami_from_2bit (sym flags) ∙ known in
    elim (Bool-cases (ltb 256 (length ack.cookie))) [
      | inl long ↦
          rw
            (
              ack_header_id ack.batch_size more,
              ack_header_a ack.batch_size more,
              known',
              append_assoc bytes (batch ++ (cookie ++ exts)) rest,
              append_assoc batch (cookie ++ exts) rest,
              append_assoc cookie exts rest,
              read_fixed_front bytes (batch ++ (cookie ++ (exts ++ rest)))
                  (flags_byte ack.whatami (length bytes) / 2 ^ 4 + 1) 3 size',
              read_batch-image ack.batch_size more resolution (3 + length bytes)
                  (cookie ++ (exts ++ rest)) v.batch,
              read_slice ack.cookie (3 + length bytes + length batch) (exts ++ rest) v.cookie,
              long,
            )
            refl
      | inr short ↦
          rw
            (
              ack_header_id ack.batch_size more,
              ack_header_a ack.batch_size more,
              ack_header_z ack.batch_size more,
              known',
              append_assoc bytes (batch ++ (cookie ++ exts)) rest,
              append_assoc batch (cookie ++ exts) rest,
              append_assoc cookie exts rest,
              read_fixed_front bytes (batch ++ (cookie ++ (exts ++ rest)))
                  (flags_byte ack.whatami (length bytes) / 2 ^ 4 + 1) 3 size',
              read_batch-image ack.batch_size more resolution (3 + length bytes)
                  (cookie ++ (exts ++ rest)) v.batch,
              read_slice ack.cookie (3 + length bytes + length batch) (exts ++ rest) v.cookie,
              short,
              read_when-chain_image extensions (3 + length bytes + length batch + length cookie)
                  rest all,
              kept,
            )
            (ground (
              arith,
              length-append bytes (batch ++ (cookie ++ exts)),
              length-append batch (cookie ++ exts),
              length-append cookie exts,
            ))
    ]
