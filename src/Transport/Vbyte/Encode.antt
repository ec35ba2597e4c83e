-- ===== src/Transport/Vbyte/Encode.antt =====
-- What `encode_vbyte` writes, in plain arithmetic.
use mathlib.Core.Logic.{dif_neg}
use mathlib.Core.WellFounded.{Acc}
use native.Mathlib.Decide.{dec_lt}
use native.Mathlib.Nat.{pow-suc}
use zenoh_ros2_nostd.Common.{
  ℕ, zero, suc, ◌+◌, ◌/◌, ◌%◌, ◌^◌, ◌≤◌, ◌<◌, bit_and, bit_or, ◌≡◌, ap, ◌∙◌, List, [], ◌∷◌, All,
  arith, ltb, le→ltb, length, if◌then◌else◌,
}
use zenoh_ros2_nostd.Common.Order.{lt_wf}
use zenoh_ros2_nostd.Common.Bits.{set_top, low_mask}
use zenoh_ros2_nostd.Transport.Writer.{
  write_byte, write_byte-slice, write_slice, write_slice-append,
}
use zenoh_ros2_nostd.Transport.Vbyte.{encode_loop, encode_vbyte, u64_size, shift_falls}

-- The groups of seven bits of `v`, the lowest first, each but the last with its top bit set;
-- `k + 1` groups at most.
unfoldable pub groups : ℕ → ℕ → List ℕ
groups zero v = v ∷ []
groups (suc k) v =
    let rest = groups k (v / 128) in if ltb v 128 then v ∷ [] else (v % 128 + 128) ∷ rest

-- The wire image of a u64.
abbrev pub vbyte : ℕ → List ℕ
vbyte v = groups 9 v

last_group : (v : ℕ) → v < 128 → write_byte (v % 256) ≡ write_slice (v ∷ [])
last_group v h = rw write_byte-slice (ap (λ b. write_slice (b ∷ [])) (omega arith))

inner_group : (v : ℕ) → bit_or (bit_and v 0x7f % 256) 0x80 ≡ v % 128 + 128
inner_group v = rw low_mask (set_top _ (omega arith) ∙ omega arith)

encode_loop-groups :
    (k v : ℕ) (w : Acc ◌<◌ v) → v < 128 ^ suc k → encode_loop v w ≡ write_slice (groups k v)
unfolding encode_loop groups
encode_loop-groups zero v (Acc.intro _ smaller) h = ground (arith, last_group v)
encode_loop-groups (suc k) v (Acc.intro _ smaller) h = elim (dec_lt v 128) [
  | yes p ↦ ground (arith, last_group v p)
  | no p ↦ rw (
    dif_neg _ p,
    le→ltb v 128 (omega arith),
    encode_loop-groups k (v / 128) (smaller (v / 128) (shift_falls v p))
        (omega (arith, pow-suc 128 (suc k))),
    write_byte-slice,
    write_slice-append,
    inner_group v,
  )
]

-- On every u64, `encode_vbyte` writes the groups, or fails for want of room.
pub encode_vbyte-vbyte : (v : ℕ) → v < u64_size → encode_vbyte v ≡ write_slice (vbyte v)
unfolding encode_vbyte
encode_vbyte-vbyte v h = encode_loop-groups 9 v (lt_wf.apply v) (omega arith)

-- 1 to 10 bytes.
pub length-groups : (k v : ℕ) → (1 ≤ length (groups k v)) × (length (groups k v) ≤ k + 1)
unfolding groups
length-groups zero v = omega arith
length-groups (suc k) v = ground (arith, length-groups k (v / 128))

pub groups-byte : (k v : ℕ) → v < 128 ^ suc k → All (λ b. b < 256) (groups k v)
unfolding groups
groups-byte zero v h = omega arith
groups-byte (suc k) v h = ground (arith, pow-suc 128 (suc k), groups-byte k (v / 128))
