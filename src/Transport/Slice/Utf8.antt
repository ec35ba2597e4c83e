-- ===== src/Transport/Slice/Utf8.antt =====
-- `core::str::from_utf8`, which the decoders call on the bytes of a key expression: well-formed
-- UTF-8 as in the Unicode standard, table 3-7.
use zenoh_ros2_nostd.Common.{ℕ, List, [], ◌∷◌, Bool, true, ◌&&◌, ltb, leb, ◌==◌, if◌then◌else◌}

in_range : ℕ → ℕ → ℕ → Bool
in_range lo hi b = leb lo b && leb b hi

-- The lowest and the highest second byte behind a first byte of three or four.
second_low : ℕ → ℕ
second_low b = if b == 0xe0 then 0xa0 else (if b == 0xf0 then 0x90 else 0x80)

second_high : ℕ → ℕ
second_high b = if b == 0xed then 0x9f else (if b == 0xf4 then 0x8f else 0xbf)

unfoldable pub is_utf8 : List ℕ → Bool
unfolding in_range second_low second_high
is_utf8 [] = true
is_utf8 (a ∷ []) = ltb a 0x80
is_utf8 (a ∷ b ∷ []) =
    if ltb a 0x80 then is_utf8 (b ∷ []) else in_range 0xc2 0xdf a && in_range 0x80 0xbf b
is_utf8 (a ∷ b ∷ c ∷ []) =
    let one = is_utf8 (b ∷ c ∷ []) in
    let two = is_utf8 (c ∷ []) in
    if ltb a 0x80
    then one
    else (if in_range 0xc2 0xdf a
        then in_range 0x80 0xbf b && two
        else in_range 0xe0 0xef a
          && in_range (second_low a) (second_high a) b
          && in_range 0x80 0xbf c)
is_utf8 (a ∷ b ∷ c ∷ d ∷ rest) =
    let one = is_utf8 (b ∷ c ∷ d ∷ rest) in
    let two = is_utf8 (c ∷ d ∷ rest) in
    let three = is_utf8 (d ∷ rest) in
    let four = is_utf8 rest in
    if ltb a 0x80
    then one
    else (if in_range 0xc2 0xdf a
        then in_range 0x80 0xbf b && two
        else (if in_range 0xe0 0xef a
            then in_range (second_low a) (second_high a) b && in_range 0x80 0xbf c && three
            else in_range 0xf0 0xf4 a
              && in_range (second_low a) (second_high a) b
              && in_range 0x80 0xbf c
              && in_range 0x80 0xbf d
              && four))
