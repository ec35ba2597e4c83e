-- ===== src/Transport/Vbyte.antt =====
-- `encode_vbyte` and `decode_vbyte` of src/transport/codec.rs: unsigned LEB128 over a u64.
pub mod Encode
pub mod Decode
use mathlib.Core.Logic.{dite}
use mathlib.Core.WellFounded.{Acc}
use native.Mathlib.Decide.{dec_lt}
use zenoh_ros2_nostd.Common.{
  ℕ, ◌+◌, ◌*◌, ◌/◌, ◌%◌, ◌^◌, ◌<◌, bit_and, bit_or, List, [], ◌∷◌, arith, leb, ◌==◌, if◌then◌else◌,
  ok, err,
}
use zenoh_ros2_nostd.Common.Order.{lt_wf}
use zenoh_ros2_nostd.Error.{invalid_encoding, Wire}
use zenoh_ros2_nostd.Transport.Writer.{Encoder, write_byte, ◌⨾◌}

abbrev pub u64_size : ℕ
u64_size = 2 ^ 64

abbrev pub shift_falls : (v : ℕ) → (v < 128 → ⊥) → v / 128 < v
shift_falls v h = omega arith

-- `value as u8` is `% 256`, and `value >>= 7` is `/ 128`.
unfoldable pub encode_loop : (v : ℕ) → Acc ◌<◌ v → Encoder
encode_loop v (Acc.intro _ smaller) =
    dite (dec_lt v 128) (λ _. write_byte (v % 256))
      (λ h.
        write_byte (bit_or (bit_and v 0x7f % 256) 0x80)
        ⨾ encode_loop (v / 128) (smaller (v / 128) (shift_falls v h)))

unfoldable pub encode_vbyte : ℕ → Encoder
unfolding encode_loop lt_wf dec_lt
encode_vbyte v = encode_loop v (lt_wf.apply v)

-- The list is what `buf.iter()` has not reached, and `i` the index of its head. The shift of a
-- u64 drops what leaves the word; `shift` stays below 71, so its u32 cannot wrap.
unfoldable pub decode_loop : List ℕ → ℕ → ℕ → ℕ → Wire (ℕ × ℕ)
decode_loop [] value shift i = err invalid_encoding
decode_loop (byte ∷ rest) value shift i =
    let value' = bit_or value (bit_and byte 0x7f * 2 ^ shift % u64_size) in
    let more = decode_loop rest value' (shift + 7) (i + 1) in
    if bit_and byte 0x80 == 0
    then ok (value', i + 1)
    else (if leb 64 (shift + 7) then err invalid_encoding else more)

-- The value and the number of bytes taken.
unfoldable pub decode_vbyte : List ℕ → Wire (ℕ × ℕ)
unfolding decode_loop
decode_vbyte buf = decode_loop buf 0 0 0
