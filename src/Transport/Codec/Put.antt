-- ===== src/Transport/Codec/Put.antt =====
-- src/transport/codec.rs: a Push with a Put inside, as it is published and as it arrives.
pub mod RoundTrip
pub mod Attached
pub mod Bounds
use zenoh_ros2_nostd.Common.{
  ℕ, ◌+◌, ◌*◌, ◌%◌, ◌^◌, bit_or, List, [], ◌∷◌, Bool, true, false, not, Option, none, some, ◌==◌,
  if◌then◌else◌, ok, err, ◌>>=◌,
}
use zenoh_ros2_nostd.Error.{invalid_encoding, Wire}
use zenoh_ros2_nostd.Transport.Writer.{Encoder, write_byte, write_when, ◌⨾◌}
use zenoh_ros2_nostd.Transport.Reader.{
  Step, usize_size, read_byte, read_with, read_when, skip_bytes,
}
use zenoh_ros2_nostd.Transport.Vbyte.{encode_vbyte, decode_vbyte, u64_size}
use zenoh_ros2_nostd.Transport.Slice.{encode_slice, encode_string, decode_slice}
use zenoh_ros2_nostd.Transport.Slice.Utf8.{is_utf8}
use zenoh_ros2_nostd.Transport.Protocol.{ZenohId}
use zenoh_ros2_nostd.Transport.Protocol.Ids.{network_push, zenoh_put}
use zenoh_ros2_nostd.Transport.Protocol.Flags.{flag_n, flag_z, put_t, put_e}
use zenoh_ros2_nostd.Transport.Codec.Extension.{skip_extensions}
use zenoh_ros2_nostd.Transport.Codec.Header.{msg_id, has_flag}
use zenoh_ros2_nostd.Transport.Codec.Attachment.{attachment_len, write_attachment}

-- `encoding_id << 1` of a u64 drops the top bit.
unfoldable pub encode_push_put : List ℕ → ℕ → List ℕ → Encoder
encode_push_put key_expr encoding_id payload =
    write_byte (bit_or network_push flag_n)
    ⨾ encode_vbyte 0
    ⨾ encode_string key_expr
    ⨾ write_byte (bit_or zenoh_put (if encoding_id == 0 then 0 else put_e))
    ⨾ write_when (not (encoding_id == 0)) (encode_vbyte (encoding_id * 2 % u64_size))
    ⨾ encode_slice payload

abbrev pub attachment_ext_header : ℕ
attachment_ext_header = 0x43

unfoldable pub encode_push_put_with_attachment : List ℕ → List ℕ → ℕ → ℕ → ZenohId → Encoder
encode_push_put_with_attachment key_expr payload seq_num timestamp_ns gid =
    write_byte (bit_or network_push flag_n)
    ⨾ encode_vbyte 0
    ⨾ encode_string key_expr
    ⨾ write_byte (bit_or zenoh_put flag_z)
    ⨾ write_byte attachment_ext_header
    ⨾ encode_vbyte attachment_len
    ⨾ write_attachment seq_num timestamp_ns gid
    ⨾ encode_slice payload

pub record IncomingPut : Type 0 where
  pub scope : ℕ
  pub key_suffix : List ℕ
  pub payload : List ℕ

-- The suffix of a wire expression: a string, or `""` where the N flag is not set.
unfoldable pub read_suffix : Bool → Step (List ℕ)
read_suffix false pos rest = ok ([], pos, rest)
read_suffix true pos rest = do
  (bytes, pos, rest) ← read_with decode_slice pos rest
  if is_utf8 bytes then ok (bytes, pos, rest) else err invalid_encoding

-- A timestamp: the time as a VByte, then an identifier behind its size.
unfoldable pub read_timestamp : Bool → Step (Unit {0})
read_timestamp false pos rest = ok (tt, pos, rest)
read_timestamp true pos rest = do
  (time, pos, rest) ← read_with decode_vbyte pos rest
  (id_size, pos, rest) ← read_with decode_vbyte pos rest
  skip_bytes (id_size % usize_size) pos rest

-- What stands behind the header of a Put: timestamp, encoding, extensions and the payload.
unfoldable pub read_put_body : ℕ → Step (List ℕ)
read_put_body put_header pos rest = do
  (t, pos, rest) ← read_timestamp (has_flag put_header put_t) pos rest
  (e, pos, rest) ← read_when (has_flag put_header put_e) 0 (read_with decode_vbyte) pos rest
  (u, pos, rest) ← read_when (has_flag put_header flag_z) tt skip_extensions pos rest
  read_with decode_slice pos rest

-- `none` for a message that is no Push, or a Push of something else than a Put.
unfoldable pub decode_push_put : List ℕ → Wire (Option (IncomingPut × ℕ))
decode_push_put [] = ok none
decode_push_put (push_header ∷ rest) =
    if not (msg_id push_header == network_push) then ok none else (do
      (scope, pos, rest) ← read_with decode_vbyte 1 rest
      (key_suffix, pos, rest) ← read_suffix (has_flag push_header flag_n) pos rest
      (u, pos, rest) ← read_when (has_flag push_header flag_z) tt skip_extensions pos rest
      (put_header, pos, rest) ← read_byte pos rest
      (if not (msg_id put_header == zenoh_put) then ok none else (do
        (payload, pos, rest) ← read_put_body put_header pos rest
        ok (some (record { scope = scope; key_suffix = key_suffix; payload = payload }, pos)))))
