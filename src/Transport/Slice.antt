-- ===== src/Transport/Slice.antt =====
-- `encode_slice`, `decode_slice`, `encode_string` and the ZenohId pair of src/transport/codec.rs.
pub mod RoundTrip
pub mod Utf8
pub mod Steps
use zenoh_ros2_nostd.Common.{
  ℕ, ◌+◌, ◌%◌, List, [], ◌∷◌, length, take, drop, ltb, leb, if◌then◌else◌, ok, err, panic, ◌>>=◌,
}
use zenoh_ros2_nostd.Error.{invalid_encoding, Wire}
use zenoh_ros2_nostd.Transport.Writer.{Encoder, write_slice, ◌⨾◌}
use zenoh_ros2_nostd.Transport.Reader.{usize_size}
use zenoh_ros2_nostd.Transport.Vbyte.{encode_vbyte, decode_vbyte}
use zenoh_ros2_nostd.Transport.Protocol.{ZenohId, from_bytes, as_bytes}

unfoldable pub encode_slice : List ℕ → Encoder
encode_slice bytes = encode_vbyte (length bytes) ⨾ write_slice bytes

-- `s.as_bytes()` of a `&str` is its UTF-8 form.
abbrev pub encode_string : List ℕ → Encoder
encode_string s = encode_slice s

-- The sum `hdr + len` overflows for a length near the end of `usize`.
unfoldable pub decode_slice : List ℕ → Wire (List ℕ × ℕ)
decode_slice buf = do
  (len64, hdr) ← decode_vbyte buf
  let len = len64 % usize_size
  if leb usize_size (hdr + len)
      then panic
      else (if ltb (length buf) (hdr + len)
          then err invalid_encoding
          else ok (take len (drop hdr buf), hdr + len))

-- `(id_bytes.len() as u8).wrapping_sub(1)`, then the bytes, behind one guard for both.
unfoldable pub encode_zenoh_id : ZenohId → Encoder
encode_zenoh_id zid = write_slice ((length (as_bytes zid) % 256 + 255) % 256 ∷ as_bytes zid)

unfoldable pub decode_zenoh_id : List ℕ → Wire (ZenohId × ℕ)
decode_zenoh_id [] = err invalid_encoding
decode_zenoh_id (first ∷ rest) =
    let len = first + 1 in
    if ltb (length (first ∷ rest)) (1 + len)
    then err invalid_encoding
    else ok (from_bytes (take len rest), 1 + len)
