-- ===== src/Cdr/Ser.antt =====
-- src/cdr/ser.rs: `CdrSerializer`, and `serialize_to_buf` and `serialize_with_header` of
-- src/cdr/mod.rs.
use zenoh_ros2_nostd.Common.{
  ℕ, ◌+◌, ◌-◌, ◌%◌, ◌^◌, List, [], ◌∷◌, ◌++◌, Bool, true, false, none, some, length, drop,
  replicate, ltb, ◌==◌, if◌then◌else◌, Outcome, ok, err, ◌>>=◌,
}
use zenoh_ros2_nostd.Common.Words.{le_bytes}
use zenoh_ros2_nostd.Error.Top.{CdrError, buffer_overflow}
use zenoh_ros2_nostd.Cdr.{
  Width, size, Shape, Value, boolean, text, octets, empty, number, optional, pair, sequence,
}

abbrev pub u32_size : ℕ
u32_size = 2 ^ 32

-- From the position and the rest of the buffer: what is written, and the two after it.
abbrev pub Ser : Type 0
Ser = ℕ → List ℕ → Outcome CdrError (List ℕ × ℕ × List ℕ)

unfoldable pub write_bytes : List ℕ → Ser
write_bytes bytes pos rest =
    if ltb (length rest) (length bytes)
    then err buffer_overflow
    else ok (bytes, pos + length bytes, drop (length bytes) rest)

unfoldable pub align : ℕ → Ser
unfolding write_bytes
align n pos rest =
    let rem = pos % n in
    if rem == 0 then ok ([], pos, rest) else write_bytes (replicate (n - rem) 0) pos rest

infixr 6 ◌then_write◌
unfoldable pub ◌then_write◌ : Ser → Ser → Ser
(m then_write k) pos rest = do
  (w, pos, rest) ← m pos rest
  (v, pos, rest) ← k pos rest
  ok (w ++ v, pos, rest)

-- `serialize_u8` to `serialize_f64`: no alignment for one byte.
unfoldable pub serialize_number : Width → ℕ → Ser
unfolding align write_bytes ◌then_write◌
serialize_number w v = align (size w) then_write write_bytes (le_bytes (size w) v)

unfoldable pub serialize_bool : Bool → Ser
unfolding write_bytes
serialize_bool v = write_bytes ((if v then 1 else 0) ∷ [])

-- `serialize_seq`, and the length in front of a string and of bytes: a usize as u32.
unfoldable pub serialize_len : ℕ → Ser
unfolding align write_bytes ◌then_write◌
serialize_len n = align 4 then_write write_bytes (le_bytes 4 (n % u32_size))

unfoldable pub serialize_str : List ℕ → Ser
unfolding serialize_len write_bytes ◌then_write◌
serialize_str v =
    serialize_len (length v + 1) then_write write_bytes v then_write write_bytes (0 ∷ [])

unfoldable pub serialize_bytes : List ℕ → Ser
unfolding serialize_len write_bytes ◌then_write◌
serialize_bytes v = serialize_len (length v) then_write write_bytes v

-- `serialize_element`, for each element.
unfoldable pub serialize_elements : {A : Type 0} → (A → Ser) → List A → Ser
unfolding ◌then_write◌
serialize_elements f [] pos rest = ok ([], pos, rest)
serialize_elements f (x ∷ xs) pos rest = (f x then_write serialize_elements f xs) pos rest

unfoldable pub serialize : (s : Shape) → Value s → Ser
unfolding serialize_number serialize_bool serialize_len serialize_str serialize_bytes
    serialize_elements ◌then_write◌
serialize boolean v = serialize_bool v
serialize text v = serialize_str v
serialize octets v = serialize_bytes v
serialize empty v = λ pos rest. ok ([], pos, rest)
serialize (number w) v = serialize_number w v
serialize (optional s) none = serialize_bool false
serialize (optional s) (some v) = serialize_bool true then_write serialize s v
serialize (pair s t) (v, w) = serialize s v then_write serialize t w
serialize (sequence s) vs = serialize_len (length vs) then_write serialize_elements (serialize s) vs

-- The bytes written, and their number.
unfoldable pub serialize_to_buf : (s : Shape) → Value s → List ℕ → Outcome CdrError (List ℕ × ℕ)
unfolding serialize
serialize_to_buf s v buf = serialize s v 0 buf >>= λ (w, pos, rest). ok (w, pos)

abbrev pub cdr_le_header : List ℕ
cdr_le_header = 0x00 ∷ 0x01 ∷ 0x00 ∷ 0x00 ∷ []

-- The position starts at 0 behind the header.
unfoldable pub serialize_with_header :
    (s : Shape) → Value s → List ℕ → Outcome CdrError (List ℕ × ℕ)
unfolding serialize
serialize_with_header s v buf =
    if ltb (length buf) 4
    then err buffer_overflow
    else serialize s v 0 (drop 4 buf) >>= λ (w, pos, rest). ok (cdr_le_header ++ w, 4 + pos)
