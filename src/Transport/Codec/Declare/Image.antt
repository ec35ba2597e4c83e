-- ===== src/Transport/Codec/Declare/Image.antt =====
-- The declarations as they stand on the wire.
use zenoh_ros2_nostd.Common.{ℕ, ◌+◌, ◌≤◌, ◌<◌, ◌≡◌, List, ◌∷◌, ◌++◌, length, length-append, arith}
use zenoh_ros2_nostd.Transport.Writer.{
  write_byte-slice, write_slice, write_slice-append, write_when-true,
}
use zenoh_ros2_nostd.Transport.Vbyte.{u64_size}
use zenoh_ros2_nostd.Transport.Vbyte.Encode.{vbyte, encode_vbyte-vbyte, length-groups}
use zenoh_ros2_nostd.Transport.Slice.RoundTrip.{
  slice_image, encode_slice-slice_image, slice_image_bounds,
}
use zenoh_ros2_nostd.Transport.Codec.Declare.{
  encode_declare_keyexpr, encode_declare_subscriber_mapped, encode_declare_token,
  encode_declare_token_mapped,
}

-- A declaration that names a key in full: what is declared, its number, scope 0 and the key.
abbrev pub named_image : ℕ → ℕ → List ℕ → List ℕ
named_image header id key = 0x1e ∷ header ∷ (vbyte id ++ (vbyte 0 ++ slice_image key))

-- A declaration that refers to a key by number.
abbrev pub mapped_image : ℕ → ℕ → ℕ → List ℕ
mapped_image header id key_id = 0x1e ∷ header ∷ (vbyte id ++ vbyte key_id)

pub length-named_image :
    (header id : ℕ) (key : List ℕ) → length (named_image header id key) ≤ length key + 32
length-named_image header id key = omega (
  arith,
  length-append (vbyte id) (vbyte 0 ++ slice_image key),
  length-append (vbyte 0) (slice_image key),
  length-groups 9 id,
  length-groups 9 0,
  slice_image_bounds key,
)

pub length-mapped_image : (header id key_id : ℕ) → length (mapped_image header id key_id) ≤ 22
length-mapped_image header id key_id =
    omega
      (arith, length-append (vbyte id) (vbyte key_id), length-groups 9 id, length-groups 9 key_id)

pub encode_declare_keyexpr-named_image :
    (key_id b : ℕ) (key : List ℕ)
    → key_id < u64_size
    → length (b ∷ key) < u64_size
    → encode_declare_keyexpr key_id (b ∷ key) ≡ write_slice (named_image 0x20 key_id (b ∷ key))
unfolding encode_declare_keyexpr
encode_declare_keyexpr-named_image key_id b key hi hk =
    rw
      (
        encode_vbyte-vbyte key_id hi,
        encode_vbyte-vbyte 0 (omega arith),
        write_when-true,
        encode_slice-slice_image (b ∷ key) hk,
      )
      (simp (write_byte-slice, write_slice-append))

pub encode_declare_token-named_image :
    (token_id b : ℕ) (key : List ℕ)
    → token_id < u64_size
    → length (b ∷ key) < u64_size
    → encode_declare_token token_id (b ∷ key) ≡ write_slice (named_image 0x26 token_id (b ∷ key))
unfolding encode_declare_token
encode_declare_token-named_image token_id b key hi hk =
    rw
      (
        encode_vbyte-vbyte token_id hi,
        encode_vbyte-vbyte 0 (omega arith),
        write_when-true,
        encode_slice-slice_image (b ∷ key) hk,
      )
      (simp (write_byte-slice, write_slice-append))

pub encode_declare_subscriber_mapped-mapped_image :
    (sub_id key_id : ℕ)
    → sub_id < u64_size
    → key_id < u64_size
    → encode_declare_subscriber_mapped sub_id key_id ≡ write_slice (mapped_image 0x42 sub_id key_id)
unfolding encode_declare_subscriber_mapped
encode_declare_subscriber_mapped-mapped_image sub_id key_id hs hk =
    rw (encode_vbyte-vbyte sub_id hs, encode_vbyte-vbyte key_id hk)
      (simp (write_byte-slice, write_slice-append))

pub encode_declare_token_mapped-mapped_image :
    (token_id key_id : ℕ)
    → token_id < u64_size
    → key_id < u64_size
    → encode_declare_token_mapped token_id key_id ≡ write_slice (mapped_image 0x46 token_id key_id)
unfolding encode_declare_token_mapped
encode_declare_token_mapped-mapped_image token_id key_id ht hk =
    rw (encode_vbyte-vbyte token_id ht, encode_vbyte-vbyte key_id hk)
      (simp (write_byte-slice, write_slice-append))
