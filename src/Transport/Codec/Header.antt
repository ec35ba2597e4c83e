-- ===== src/Transport/Codec/Header.antt =====
-- src/transport/codec.rs: the kind of a transport message, the headers of Frame and Fragment, and
-- the messages that are a header alone or nearly so, KeepAlive and Close.
pub mod RoundTrip
use zenoh_ros2_nostd.Common.{
  ℕ, ◌+◌, bit_and, bit_or, List, [], ◌∷◌, Bool, not, drop, ◌==◌, if◌then◌else◌, ok, err, ◌>>=◌,
}
use zenoh_ros2_nostd.Error.{invalid_encoding, Wire}
use zenoh_ros2_nostd.Transport.Writer.{Encoder, write_byte, write_slice, ◌⨾◌}
use zenoh_ros2_nostd.Transport.Reader.{read_when}
use zenoh_ros2_nostd.Transport.Vbyte.{encode_vbyte, decode_vbyte}
use zenoh_ros2_nostd.Transport.Codec.Extension.{skip_extensions}
use zenoh_ros2_nostd.Transport.Protocol.Ids.{
  transport_init, transport_open, transport_close, transport_keep_alive, transport_frame,
  transport_fragment,
}
use zenoh_ros2_nostd.Transport.Protocol.Flags.{frame_r, frame_z, fragment_r, fragment_m, fragment_z}

-- `header & 0x1F`
abbrev pub msg_id : ℕ → ℕ
msg_id header = bit_and header 0x1f

-- `header & flag != 0`
abbrev pub has_flag : ℕ → ℕ → Bool
has_flag header flag = not (bit_and header flag == 0)

pub data TransportMsgKind : Type 0 where
  init open_msg close keep_alive frame fragment : TransportMsgKind
  other : ℕ → TransportMsgKind

unfoldable pub parse_transport_msg_kind : ℕ → TransportMsgKind
parse_transport_msg_kind header =
    let id = msg_id header in
    if id == transport_init
    then init
    else (if id == transport_open
        then open_msg
        else (if id == transport_close
            then close
            else (if id == transport_keep_alive
                then keep_alive
                else (if id == transport_frame
                    then frame
                    else (if id == transport_fragment then fragment else other id)))))

unfoldable pub encode_keepalive : Encoder
encode_keepalive = write_byte transport_keep_alive

unfoldable pub is_keepalive : ℕ → Bool
is_keepalive header = msg_id header == transport_keep_alive

-- One guard for the two bytes.
unfoldable pub encode_close : ℕ → Encoder
encode_close reason = write_slice (transport_close ∷ reason ∷ [])

unfoldable pub encode_frame_header : ℕ → Bool → Encoder
encode_frame_header sn reliable =
    write_byte (if reliable then bit_or transport_frame frame_r else transport_frame)
    ⨾ encode_vbyte sn

-- The sequence number, whether the channel is reliable, and where the body begins.
unfoldable pub decode_frame_header : List ℕ → Wire (ℕ × Bool × ℕ)
decode_frame_header [] = err invalid_encoding
decode_frame_header (header ∷ rest) =
    if msg_id header == transport_frame
    then (do
      (sn, n) ← decode_vbyte rest
      (u, pos, body) ← read_when (has_flag header frame_z) tt skip_extensions (1 + n) (drop n rest)
      ok (sn, has_flag header frame_r, pos))
    else err invalid_encoding

-- The sequence number, the two flags, and where the payload begins.
unfoldable pub decode_fragment_header : List ℕ → Wire (ℕ × Bool × Bool × ℕ)
decode_fragment_header [] = err invalid_encoding
decode_fragment_header (header ∷ rest) =
    if msg_id header == transport_fragment
    then (do
      (sn, n) ← decode_vbyte rest
      (u, pos, body) ←
          read_when (has_flag header fragment_z) tt skip_extensions (1 + n) (drop n rest)
      ok (sn, has_flag header fragment_r, has_flag header fragment_m, pos))
    else err invalid_encoding
