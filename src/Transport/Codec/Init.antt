-- ===== src/Transport/Codec/Init.antt =====
-- src/transport/codec.rs: `encode_init_syn` and `decode_init_ack`.
pub mod Image
pub mod RoundTrip
use zenoh_ros2_nostd.Common.{
  ℕ, ◌+◌, ◌-◌, ◌*◌, ◌/◌, ◌%◌, ◌^◌, bit_and, bit_or, List, [], ◌∷◌, Bool, true, false, not, Option,
  none, some, length, take, drop, ltb, ◌==◌, if◌then◌else◌, ok, err, panic, ◌>>=◌,
}
use zenoh_ros2_nostd.Common.Words.{le_bytes, from_le_bytes}
use zenoh_ros2_nostd.Error.{invalid_encoding, frame_too_large, Wire}
use zenoh_ros2_nostd.Transport.Writer.{Encoder, write_byte, write_slice, ◌⨾◌}
use zenoh_ros2_nostd.Transport.Reader.{Step, read_byte, read_with, read_when}
use zenoh_ros2_nostd.Transport.Slice.{decode_slice}
use zenoh_ros2_nostd.Transport.Protocol.{
  WhatAmI, router, peer, client, ZenohId, as_bytes, from_bytes, InitSyn, InitAck,
}
use zenoh_ros2_nostd.Transport.Protocol.Ids.{transport_init}
use zenoh_ros2_nostd.Transport.Protocol.Flags.{init_a, init_s, init_z}
use zenoh_ros2_nostd.Transport.Codec.Extension.{skip_extensions}
use zenoh_ros2_nostd.Transport.Codec.Header.{msg_id, has_flag}

unfoldable pub whatami_to_2bit : WhatAmI → ℕ
whatami_to_2bit router = 0
whatami_to_2bit peer = 1
whatami_to_2bit client = 2

unfoldable pub whatami_from_2bit : ℕ → Wire WhatAmI
whatami_from_2bit bits =
    let b = bit_and bits 3 in
    if b == 0
    then ok router
    else (if b == 1 then ok peer else (if b == 2 then ok client else err invalid_encoding))

-- `((zid_bytes.len() as u8 - 1) << 4) | whatami`, for an identifier that is not empty.
unfoldable pub zid_flags : ZenohId → WhatAmI → ℕ
zid_flags zid w = bit_or ((length (as_bytes zid) - 1) * 2 ^ 4 % 256) (whatami_to_2bit w)

-- The resolution and the batch size, under one guard.
unfoldable pub write_batch : Option ℕ → Encoder
write_batch none buf = ok ([], buf)
write_batch (some size) buf = write_slice (0x00 ∷ le_bytes 2 size) buf

unfoldable pub init_header : Option ℕ → ℕ
init_header none = transport_init
init_header (some size) = bit_or transport_init init_s

-- The subtraction overflows for an empty identifier, once two bytes are written.
unfoldable pub encode_init_syn : InitSyn → Encoder
encode_init_syn msg =
    write_byte (init_header msg.batch_size)
    ⨾ write_byte msg.version
    ⨾ (if length (as_bytes msg.zid) == 0
        then (λ buf. panic)
        else write_byte (zid_flags msg.zid msg.whatami))
    ⨾ write_slice (as_bytes msg.zid)
    ⨾ write_batch msg.batch_size

-- `&buf[pos..pos + n]` behind the guard `pos + n > buf.len()`, for a small `n`.
unfoldable pub read_fixed : ℕ → Step (List ℕ)
read_fixed n pos rest =
    if ltb (length rest) n then err invalid_encoding else ok (take n rest, pos + n, drop n rest)

unfoldable pub read_batch : Bool → Step (Option ℕ)
read_batch false pos rest = ok (none, pos, rest)
read_batch true pos rest = do
  (bytes, pos, rest) ← read_fixed 3 pos rest
  ok (some (from_le_bytes (drop 1 bytes)), pos, rest)

-- The cookie goes into a vector of 256 bytes.
unfoldable pub decode_init_ack : List ℕ → Wire (InitAck × ℕ)
decode_init_ack [] = err invalid_encoding
decode_init_ack (header ∷ rest) =
    if not (msg_id header == transport_init)
    then err invalid_encoding
    else (if bit_and header init_a == 0 then err invalid_encoding else (do
      (version, pos, rest) ← read_byte 1 rest
      (flags, pos, rest) ← read_byte pos rest
      whatami ← whatami_from_2bit flags
      (id, pos, rest) ← read_fixed (flags / 2 ^ 4 + 1) pos rest
      (batch_size, pos, rest) ← read_batch (has_flag header init_s) pos rest
      (cookie, pos, rest) ← read_with decode_slice pos rest
      (if ltb 256 (length cookie) then err frame_too_large else (do
        (u, pos, rest) ← read_when (has_flag header init_z) tt skip_extensions pos rest
        ok (
          record {
            version = version;
            whatami = whatami;
            zid = from_bytes id;
            cookie = cookie;
            batch_size = batch_size;
          },
          pos,
        )))))
