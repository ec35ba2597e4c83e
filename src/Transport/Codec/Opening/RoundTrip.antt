-- ===== src/Transport/Codec/Opening/RoundTrip.antt =====
-- OpenSyn as it goes out, and OpenAck as a router sends it.
use zenoh_ros2_nostd.Common.{
  ℕ, ◌+◌, ◌*◌, ◌≤◌, ◌<◌, ◌≡◌, List, ◌∷◌, ◌++◌, append_assoc, Bool, true, false, length,
  length-append, lt→leb, le→leb, if◌then◌else◌, arith, ok, panic,
}
use zenoh_ros2_nostd.Transport.Writer.{write_byte-slice, write_slice, write_slice-append}
use zenoh_ros2_nostd.Transport.Vbyte.{u64_size}
use zenoh_ros2_nostd.Transport.Vbyte.Encode.{vbyte, encode_vbyte-vbyte}
use zenoh_ros2_nostd.Transport.Slice.RoundTrip.{slice_image, encode_slice-slice_image}
use zenoh_ros2_nostd.Transport.Slice.Steps.{read_vbyte}
use zenoh_ros2_nostd.Transport.Protocol.{OpenSyn}
use zenoh_ros2_nostd.Transport.Codec.Opening.{encode_open_syn, decode_open_ack, lease_in_ms}

abbrev pub open_syn_image : OpenSyn → List ℕ
open_syn_image msg = 0x02 ∷ (vbyte msg.lease_ms ++ (vbyte msg.initial_sn ++ slice_image msg.cookie))

pub encode_open_syn-open_syn_image :
    (msg : OpenSyn)
    → msg.lease_ms < u64_size
    → msg.initial_sn < u64_size
    → length msg.cookie < u64_size
    → encode_open_syn msg ≡ write_slice (open_syn_image msg)
unfolding encode_open_syn
encode_open_syn-open_syn_image msg hl hs hc =
    rw
      (
        encode_vbyte-vbyte msg.lease_ms hl,
        encode_vbyte-vbyte msg.initial_sn hs,
        encode_slice-slice_image msg.cookie hc,
      )
      (simp (write_byte-slice, write_slice-append))

-- An OpenAck as a router sends it: OPEN with the A flag, and T for a lease in seconds.
abbrev pub open_ack_image : Bool → ℕ → ℕ → List ℕ
open_ack_image in_seconds lease initial_sn =
    (if in_seconds then 0x62 else 0x22) ∷ (vbyte lease ++ vbyte initial_sn)

-- The lease of an OpenAck arrives in milliseconds, whichever unit the router wrote it in, and the
-- sequence number as it is.
pub decode_open_ack-open_ack_image :
    (in_seconds : Bool) (lease initial_sn : ℕ) (rest : List ℕ)
    → lease * 1000 < u64_size
    → initial_sn < u64_size
    → decode_open_ack (open_ack_image in_seconds lease initial_sn ++ rest)
      ≡ ok (
        record { lease_ms = if in_seconds then lease * 1000 else lease; initial_sn = initial_sn },
        length (open_ack_image in_seconds lease initial_sn),
      )
unfolding decode_open_ack lease_in_ms
decode_open_ack-open_ack_image true lease initial_sn rest hl hs =
    rw
      (
        append_assoc (vbyte lease) (vbyte initial_sn) rest,
        read_vbyte lease 1 (vbyte initial_sn ++ rest) (omega arith),
        lt→leb u64_size (lease * 1000) hl,
        read_vbyte initial_sn (1 + length (vbyte lease)) rest hs,
      )
      (ground (arith, length-append (vbyte lease) (vbyte initial_sn)))
decode_open_ack-open_ack_image false lease initial_sn rest hl hs =
    rw
      (
        append_assoc (vbyte lease) (vbyte initial_sn) rest,
        read_vbyte lease 1 (vbyte initial_sn ++ rest) (omega arith),
        read_vbyte initial_sn (1 + length (vbyte lease)) rest hs,
      )
      (ground (arith, length-append (vbyte lease) (vbyte initial_sn)))

-- A lease in seconds that does not fit a u64 in milliseconds stops the client with a panic.
pub decode_open_ack_overflow :
    (lease : ℕ) (rest : List ℕ)
    → lease < u64_size
    → u64_size ≤ lease * 1000
    → decode_open_ack (0x62 ∷ (vbyte lease ++ rest)) ≡ panic
unfolding decode_open_ack lease_in_ms
decode_open_ack_overflow lease rest h big =
    rw (read_vbyte lease 1 rest h, le→leb u64_size (lease * 1000) big)
