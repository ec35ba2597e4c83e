-- ===== src/Transport/Codec/Opening.antt =====
-- src/transport/codec.rs: `encode_open_syn` and `decode_open_ack`.
pub mod RoundTrip
use zenoh_ros2_nostd.Common.{
  ℕ, ◌+◌, ◌*◌, bit_and, List, [], ◌∷◌, Bool, true, false, not, leb, ◌==◌, if◌then◌else◌, ok, err,
  panic, ◌>>=◌,
}
use zenoh_ros2_nostd.Error.{invalid_encoding, Wire}
use zenoh_ros2_nostd.Transport.Writer.{Encoder, write_byte, ◌⨾◌}
use zenoh_ros2_nostd.Transport.Reader.{read_with}
use zenoh_ros2_nostd.Transport.Vbyte.{encode_vbyte, decode_vbyte, u64_size}
use zenoh_ros2_nostd.Transport.Slice.{encode_slice}
use zenoh_ros2_nostd.Transport.Protocol.{OpenSyn, OpenAck}
use zenoh_ros2_nostd.Transport.Protocol.Ids.{transport_open}
use zenoh_ros2_nostd.Transport.Protocol.Flags.{open_a, open_t}
use zenoh_ros2_nostd.Transport.Codec.Header.{msg_id, has_flag}

unfoldable pub encode_open_syn : OpenSyn → Encoder
encode_open_syn msg =
    write_byte transport_open
    ⨾ encode_vbyte msg.lease_ms
    ⨾ encode_vbyte msg.initial_sn
    ⨾ encode_slice msg.cookie

-- `if lease_in_seconds { lease_val * 1000 } else { lease_val }` on a u64.
unfoldable pub lease_in_ms : Bool → ℕ → Wire ℕ
lease_in_ms false lease = ok lease
lease_in_ms true lease = if leb u64_size (lease * 1000) then panic else ok (lease * 1000)

unfoldable pub decode_open_ack : List ℕ → Wire (OpenAck × ℕ)
decode_open_ack [] = err invalid_encoding
decode_open_ack (header ∷ rest) =
    if not (msg_id header == transport_open)
    then err invalid_encoding
    else (if bit_and header open_a == 0 then err invalid_encoding else (do
      (lease, pos, rest) ← read_with decode_vbyte 1 rest
      lease_ms ← lease_in_ms (has_flag header open_t) lease
      (initial_sn, pos, rest) ← read_with decode_vbyte pos rest
      ok (record { lease_ms = lease_ms; initial_sn = initial_sn }, pos)))
