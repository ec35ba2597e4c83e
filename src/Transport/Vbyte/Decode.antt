-- ===== src/Transport/Vbyte/Decode.antt =====
-- `decode_vbyte` on any bytes, and on what `encode_vbyte` wrote.
use native.Mathlib.Nat.{pow-suc, div-add-mod, pow-le-pow_right, mul-le-mul_right}
use native.Mathlib.Decide.{dec_lt}
use native.Mathlib.Numerals.{towards_suc}
use zenoh_ros2_nostd.Common.{
  ℕ, zero, suc, ◌+◌, ◌*◌, ◌/◌, ◌%◌, ◌^◌, ◌≤◌, ◌<◌, bit_and, bit_or, ◌≡◌, ◌≢◌, ap, ◌∙◌, List, [],
  ◌∷◌, ◌++◌, arith, lt→ltb, le→ltb, drop, length, ok, panic,
}
use zenoh_ros2_nostd.Common.Bits.{top_bit, bit_or-shifted, low_mask}
use zenoh_ros2_nostd.Transport.Writer.{write_slice_fits}
use zenoh_ros2_nostd.Transport.Vbyte.{decode_loop, decode_vbyte, encode_vbyte, u64_size}
use zenoh_ros2_nostd.Transport.Vbyte.Encode.{groups, vbyte, encode_vbyte-vbyte, length-groups}

-- One byte of the loop adds its seven bits, if they fit the word.
add_group :
    (value g s : ℕ)
    → value < 2 ^ s
    → value + g * 2 ^ s < u64_size
    → bit_or value (g * 2 ^ s % u64_size) ≡ value + g * 2 ^ s
add_group value g s h fits =
    ap (λ (t : ℕ). bit_or value t) (omega arith) ∙ bit_or-shifted s value g h

loop_last :
    (w value s i : ℕ) (rest : List ℕ)
    → w < 128
    → value < 2 ^ s
    → value + w * 2 ^ s < u64_size
    → decode_loop (w ∷ rest) value s i ≡ ok (value + w * 2 ^ s, i + 1)
unfolding decode_loop
loop_last w value s i rest hw hv fits = ground (arith, low_mask w, top_bit w, add_group value w s)

loop_inner :
    (g value s i : ℕ) (rest : List ℕ)
    → g < 128
    → s + 7 < 64
    → value < 2 ^ s
    → value + g * 2 ^ s < u64_size
    → decode_loop ((g + 128) ∷ rest) value s i
      ≡ decode_loop rest (value + g * 2 ^ s) (s + 7) (i + 1)
unfolding decode_loop
loop_inner g value s i rest hg hs hv fits =
    ground (arith, low_mask (g + 128), top_bit (g + 128), add_group value g s)

two-pow-add-seven : (s : ℕ) → 2 ^ (s + 7) ≡ 128 * 2 ^ s
two-pow-add-seven s = simp towards_suc (omega arith)

-- More than seven bits left at shift `s` means that a further shift stays inside the word.
room_for_more : (w s : ℕ) → 128 ≤ w → w * 2 ^ s < u64_size → s + 7 < 64
room_for_more w s hw fits = elim (dec_lt (s + 7) 64) [
  | yes p ↦ p
  | no p ↦ absurd (
      omega (
        arith,
        pow-le-pow_right {n = 2} (omega arith) {i = 64} {j = s + 7} (omega arith),
        two-pow-add-seven s,
        mul-le-mul_right {m = 128} {n = w} (2 ^ s) hw,
      ))
]

low_and_high : (w s : ℕ) → w * 2 ^ s ≡ w % 128 * 2 ^ s + w / 128 * 2 ^ (s + 7)
low_and_high w s = omega (
  arith,
  ap (λ (t : ℕ). t * 2 ^ s) (div-add-mod w 128),
  ap (λ (t : ℕ). w / 128 * t) (two-pow-add-seven s),
)

group_fits : (value g s : ℕ) → value < 2 ^ s → g < 128 → value + g * 2 ^ s < 2 ^ (s + 7)
group_fits value g s hv hg =
    omega (arith, two-pow-add-seven s, mul-le-mul_right {m = g} {n = 127} (2 ^ s) (omega arith))

-- `w` is what is still to be read, and counts from bit `s` on; `value` is what was read.
decode_loop-groups :
    (k w value s i : ℕ) (rest : List ℕ)
    → w < 128 ^ suc k
    → value < 2 ^ s
    → value + w * 2 ^ s < u64_size
    → decode_loop (groups k w ++ rest) value s i ≡ ok (value + w * 2 ^ s, i + length (groups k w))
unfolding groups
decode_loop-groups zero w value s i rest hw hv fits =
    loop_last w value s i rest (omega arith) hv fits
decode_loop-groups (suc k) w value s i rest hw hv fits = elim (dec_lt w 128) [
  | yes p ↦ rw (lt→ltb w 128 p) (loop_last w value s i rest p hv fits)
  | no p ↦
      rw
        (
          le→ltb w 128 (omega arith),
          loop_inner (w % 128) value s i (groups k (w / 128) ++ rest) (omega arith)
              (room_for_more w s (omega arith) (omega arith)) hv (omega (arith, low_and_high w s)),
          decode_loop-groups k (w / 128) (value + w % 128 * 2 ^ s) (s + 7) (i + 1) rest
              (omega (arith, pow-suc 128 (suc k))) (group_fits value (w % 128) s hv (omega arith))
              (omega (arith, low_and_high w s)),
        )
        (ground (arith, low_and_high w s))
]

pub decode_vbyte-vbyte :
    (v : ℕ) (rest : List ℕ)
    → v < u64_size
    → decode_vbyte (vbyte v ++ rest) ≡ ok (v, length (vbyte v))
unfolding decode_vbyte
decode_vbyte-vbyte v rest h =
    decode_loop-groups 9 v 0 0 0 rest (omega arith) (omega arith) (omega arith) ∙ ground arith

-- With ten bytes of room every u64 is encoded in 1 to 10 bytes, and whatever comes to stand behind
-- them, `decode_vbyte` reads the same number back and takes exactly those bytes.
pub decode_vbyte-encode_vbyte :
    (v : ℕ) (buf rest : List ℕ)
    → v < u64_size
    → 10 ≤ length buf
    → (w : List ℕ) × (r : List ℕ) × (encode_vbyte v buf ≡ ok (w, r))
      × (1 ≤ length w)
      × (length w ≤ 10)
      × (decode_vbyte (w ++ rest) ≡ ok (v, length w))
decode_vbyte-encode_vbyte v buf rest h room = (
  vbyte v,
  drop (length (vbyte v)) buf,
  rw (encode_vbyte-vbyte v h) (write_slice_fits (vbyte v) buf (omega (arith, length-groups 9 v))),
  (length-groups 9 v).0,
  (length-groups 9 v).1,
  decode_vbyte-vbyte v rest h,
)

-- What a decoded pair satisfies: `i` bytes were taken before the list, `j` groups before the word
-- is full.
record Decoded (buf : List ℕ) (i value n : ℕ) : Type 0 where
  u64 : value < u64_size
  least : i + 1 ≤ n
  inside : n ≤ i + length buf
  most : n ≤ 10

word_group :
    (value b s : ℕ)
    → value < 2 ^ s
    → s ≤ 56
    → bit_or value (bit_and b 0x7f * 2 ^ s % u64_size) < 2 ^ (s + 7)
word_group value b s h hs =
    let small : value + b % 128 * 2 ^ s < 2 ^ (s + 7) =
      group_fits value (b % 128) s h (omega arith) in
    let word = pow-le-pow_right {n = 2} (omega arith) {i = s + 7} {j = 63} (omega arith) in
    rw (low_mask b, add_group value (b % 128) s h (omega arith)) small

last_word :
    (value b : ℕ) → value < 2 ^ 63 → bit_or value (bit_and b 0x7f * 2 ^ 63 % u64_size) < u64_size
last_word value b h =
    let top : bit_and b 0x7f * 2 ^ 63 % u64_size ≡ bit_and b 0x7f % 2 * 2 ^ 63 = omega arith in
    rw (top, bit_or-shifted 63 value (bit_and b 0x7f % 2) h) (omega arith)

decode_loop-Decoded :
    (buf : List ℕ) (value s i v n : ℕ)
    → value < 2 ^ s
    → s ≡ 7 * i
    → i ≤ 9
    → decode_loop buf value s i ≡ ok (v, n)
    → Decoded buf i v n
unfolding decode_loop
decode_loop-Decoded [] value s i v n hv hs hi e = cc
decode_loop-Decoded (b ∷ rest) value s i v n hv hs hi e = elim (dec_lt i 9) [
  | yes p ↦ ground (
    arith,
    word_group value b s hv (omega arith),
    pow-le-pow_right {n = 2} (omega arith) {i = s + 7} {j = 63} (omega arith),
    decode_loop-Decoded rest (bit_or value (bit_and b 0x7f * 2 ^ s % u64_size)) (s + 7) (i + 1) v n,
  )
  | no p ↦
      let full : s ≡ 63 = omega arith in ground (arith, last_word value b (rw full at hv), full)
]

-- On any bytes whatever, a number that `decode_vbyte` returns is a u64, and it took 1 to 10 bytes,
-- all of them inside the slice.
pub decode_vbyte_bounds :
    (buf : List ℕ) (v n : ℕ)
    → decode_vbyte buf ≡ ok (v, n)
    → (v < u64_size) × (1 ≤ n) × (n ≤ 10) × (n ≤ length buf)
unfolding decode_vbyte
decode_vbyte_bounds buf v n e =
    let d = decode_loop-Decoded buf 0 0 0 v n (omega arith) (omega arith) (omega arith) e in
    omega arith

decode_loop-ne-panic : (buf : List ℕ) (value s i : ℕ) → decode_loop buf value s i ≢ panic
unfolding decode_loop
decode_loop-ne-panic [] value s i e = cc
decode_loop-ne-panic (b ∷ rest) value s i e = ground (
  arith,
  decode_loop-ne-panic rest (bit_or value (bit_and b 0x7f * 2 ^ s % u64_size)) (s + 7) (i + 1),
)

pub decode_vbyte-ne-panic : (buf : List ℕ) → decode_vbyte buf ≢ panic
unfolding decode_vbyte
decode_vbyte-ne-panic buf = decode_loop-ne-panic buf 0 0 0
