-- ===== src/Transport/Codec/Service.antt =====
-- src/transport/codec.rs: the messages of a service client, Request with Query out and Response
-- with Reply in.
pub mod Bounds
pub mod Image
pub mod RoundTrip
use zenoh_ros2_nostd.Common.{
  ℕ, ◌+◌, ◌%◌, ◌^◌, bit_or, List, [], ◌∷◌, not, Option, none, some, length, ◌==◌, if◌then◌else◌, ok,
  ◌>>=◌,
}
use zenoh_ros2_nostd.Error.{Wire}
use zenoh_ros2_nostd.Transport.Writer.{Encoder, write_byte, write_slice, ◌⨾◌}
use zenoh_ros2_nostd.Transport.Reader.{Step, read_byte, read_with, read_when}
use zenoh_ros2_nostd.Transport.Vbyte.{encode_vbyte, decode_vbyte}
use zenoh_ros2_nostd.Transport.Slice.{encode_string}
use zenoh_ros2_nostd.Transport.Protocol.{ZenohId}
use zenoh_ros2_nostd.Transport.Protocol.Ids.{
  network_request, network_response, network_response_final, zenoh_put, zenoh_query, zenoh_reply,
  query_all_complete,
}
use zenoh_ros2_nostd.Transport.Protocol.Flags.{flag_n, flag_z, reply_c}
use zenoh_ros2_nostd.Transport.Codec.Extension.{skip_extensions}
use zenoh_ros2_nostd.Transport.Codec.Header.{msg_id, has_flag}
use zenoh_ros2_nostd.Transport.Codec.Attachment.{attachment_len, write_attachment}
use zenoh_ros2_nostd.Transport.Codec.Put.{read_suffix, read_put_body}

abbrev pub target_ext_header : ℕ
target_ext_header = 0x24

abbrev pub query_body_ext_header : ℕ
query_body_ext_header = 0xc3

abbrev pub query_attachment_ext_header : ℕ
query_attachment_ext_header = 0x45

unfoldable pub encode_request_query : ℕ → List ℕ → List ℕ → ℕ → ℕ → ZenohId → Encoder
encode_request_query request_id key_expr payload seq_num timestamp_ns gid =
    write_byte (bit_or (bit_or network_request flag_n) flag_z)
    ⨾ encode_vbyte request_id
    ⨾ encode_vbyte 0
    ⨾ encode_string key_expr
    ⨾ write_byte target_ext_header
    ⨾ encode_vbyte query_all_complete
    ⨾ write_byte (bit_or zenoh_query flag_z)
    ⨾ write_byte query_body_ext_header
    ⨾ encode_vbyte (1 + length payload)
    ⨾ encode_vbyte 0
    ⨾ write_slice payload
    ⨾ write_byte query_attachment_ext_header
    ⨾ encode_vbyte attachment_len
    ⨾ write_attachment seq_num timestamp_ns gid

pub record IncomingReply : Type 0 where
  pub request_id : ℕ
  pub scope : ℕ
  pub key_suffix : List ℕ
  pub payload : List ℕ

pub data ResponseMsg : Type 0 where
  reply : IncomingReply → ResponseMsg
  final : ℕ → ResponseMsg

-- The part of a Response behind its wire expression: extensions, then a Reply with a Put inside.
-- `none` for an Err or a Del.
unfoldable pub read_reply : ℕ → Step (Option (List ℕ))
read_reply header pos rest = do
  (u, pos, rest) ← read_when (has_flag header flag_z) tt skip_extensions pos rest
  (reply_header, pos, rest) ← read_byte pos rest
  (if not (msg_id reply_header == zenoh_reply) then ok (none, pos, rest) else (do
    (c, pos, rest) ← read_when (has_flag reply_header reply_c) 0 (read_with decode_vbyte) pos rest
    (u, pos, rest) ← read_when (has_flag reply_header flag_z) tt skip_extensions pos rest
    (put_header, pos, rest) ← read_byte pos rest
    (if not (msg_id put_header == zenoh_put) then ok (none, pos, rest) else (do
      (payload, pos, rest) ← read_put_body put_header pos rest
      ok (some payload, pos, rest)))))

abbrev pub u32_size : ℕ
u32_size = 2 ^ 32

-- `request_id as u32` keeps the low 32 bits.
unfoldable pub decode_response_msg : ℕ → List ℕ → Wire (Option (ResponseMsg × ℕ))
decode_response_msg header rest = do
  (request_id, pos, rest) ← read_with decode_vbyte 1 rest
  (scope, pos, rest) ← read_with decode_vbyte pos rest
  (key_suffix, pos, rest) ← read_suffix (has_flag header flag_n) pos rest
  (found, pos, rest) ← read_reply header pos rest
  ok (elim found [
    | none ↦ none
    | some payload ↦ some (
      reply (record {
        request_id = request_id % u32_size;
        scope = scope;
        key_suffix = key_suffix;
        payload = payload;
      }),
      pos,
    )
  ])

unfoldable pub decode_response_final : ℕ → List ℕ → Wire (Option (ResponseMsg × ℕ))
decode_response_final header rest = do
  (request_id, pos, rest) ← read_with decode_vbyte 1 rest
  (u, pos, rest) ← read_when (has_flag header flag_z) tt skip_extensions pos rest
  ok (some (final (request_id % u32_size), pos))

unfoldable pub decode_response : List ℕ → Wire (Option (ResponseMsg × ℕ))
unfolding decode_response_msg decode_response_final
decode_response [] = ok none
decode_response (header ∷ rest) =
    if msg_id header == network_response_final
    then decode_response_final header rest
    else (if not (msg_id header == network_response)
        then ok none
        else decode_response_msg header rest)
