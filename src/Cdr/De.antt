-- ===== src/Cdr/De.antt =====
-- src/cdr/de.rs: `CdrDeserializer`, and `deserialize_from_buf` and `deserialize_with_header` of
-- src/cdr/mod.rs. What a message type does with the values that it is handed is serde's derived
-- code, which takes them as they are.
use zenoh_ros2_nostd.Common.{
  ℕ, zero, suc, ◌+◌, ◌-◌, ◌%◌, List, [], ◌∷◌, Bool, true, false, none, some, length, take, drop,
  ltb, leb, ◌==◌, if◌then◌else◌, Outcome, ok, err, panic, ◌>>=◌,
}
use zenoh_ros2_nostd.Common.Words.{from_le_bytes}
use zenoh_ros2_nostd.Error.Top.{
  CdrError, buffer_underflow, invalid_bool, invalid_utf8, unsupported_encapsulation,
}
use zenoh_ros2_nostd.Transport.Reader.{usize_size}
use zenoh_ros2_nostd.Transport.Slice.Utf8.{is_utf8}
use zenoh_ros2_nostd.Cdr.{
  Width, one, four, size, Shape, Value, boolean, text, octets, empty, number, optional, pair,
  sequence,
}

-- From the position and the input from there on: the value, and the two after it.
abbrev pub De : Type 0 → Type 0
De A = ℕ → List ℕ → Outcome CdrError (A × ℕ × List ℕ)

-- `self.pos + n` overflows where the sum does not fit a usize.
unfoldable pub read_bytes : ℕ → De (List ℕ)
read_bytes n pos rest =
    if leb usize_size (pos + n)
    then panic
    else (if ltb (length rest) n
        then err buffer_underflow
        else ok (take n rest, pos + n, drop n rest))

unfoldable pub skip_padding : ℕ → De (Unit {0})
skip_padding n pos rest =
    let rem = pos % n in
    if rem == 0
    then ok (tt, pos, rest)
    else (if ltb (length rest) (n - rem)
        then err buffer_underflow
        else ok (tt, pos + (n - rem), drop (n - rem) rest))

-- `read_u8` to `read_u64`.
unfoldable pub read_number : Width → De ℕ
unfolding read_bytes skip_padding
read_number w pos rest = do
  (u, pos, rest) ← skip_padding (size w) pos rest
  (bytes, pos, rest) ← read_bytes (size w) pos rest
  ok (from_le_bytes bytes, pos, rest)

abbrev pub as_bool : ℕ → Outcome CdrError Bool
as_bool zero = ok false
as_bool (suc zero) = ok true
as_bool (suc (suc n)) = err invalid_bool

unfoldable pub deserialize_bool : De Bool
unfolding read_number
deserialize_bool pos rest = do
  (v, pos, rest) ← read_number one pos rest
  b ← as_bool v
  ok (b, pos, rest)

unfoldable pub deserialize_str : De (List ℕ)
unfolding read_number read_bytes
deserialize_str pos rest = do
  (len, pos, rest) ← read_number four pos rest
  (if len == 0 then ok ([], pos, rest) else (do
    (bytes, pos, rest) ← read_bytes len pos rest
    (if is_utf8 (take (len - 1) bytes)
        then ok (take (len - 1) bytes, pos, rest)
        else err invalid_utf8)))

unfoldable pub deserialize_bytes : De (List ℕ)
unfolding read_number read_bytes
deserialize_bytes pos rest = do
  (len, pos, rest) ← read_number four pos rest
  read_bytes len pos rest

-- `SeqAccess`, which hands out `remaining` elements.
unfoldable pub next_elements : {A : Type 0} → De A → ℕ → De (List A)
next_elements f zero pos rest = ok ([], pos, rest)
next_elements f (suc remaining) pos rest = do
  (v, pos, rest) ← f pos rest
  (vs, pos, rest) ← next_elements f remaining pos rest
  ok (v ∷ vs, pos, rest)

unfoldable pub deserialize : (s : Shape) → De (Value s)
unfolding read_number deserialize_bool deserialize_str deserialize_bytes next_elements
deserialize boolean pos rest = deserialize_bool pos rest
deserialize text pos rest = deserialize_str pos rest
deserialize octets pos rest = deserialize_bytes pos rest
deserialize empty pos rest = ok (tt, pos, rest)
deserialize (number w) pos rest = read_number w pos rest
deserialize (optional s) pos rest = do
  (present, pos, rest) ← deserialize_bool pos rest
  (elim present [
    | false ↦ ok (none, pos, rest)
    | true ↦ (do (v, pos, rest) ← deserialize s pos rest; ok (some v, pos, rest))
  ])
deserialize (pair s t) pos rest = do
  (v, pos, rest) ← deserialize s pos rest
  (w, pos, rest) ← deserialize t pos rest
  ok ((v, w), pos, rest)
deserialize (sequence s) pos rest = do
  (len, pos, rest) ← read_number four pos rest
  next_elements (deserialize s) len pos rest

unfoldable pub deserialize_from_buf : (s : Shape) → List ℕ → Outcome CdrError (Value s × ℕ)
unfolding deserialize
deserialize_from_buf s buf = deserialize s 0 buf >>= λ (v, pos, rest). ok (v, pos)

-- Two of the four bytes of the header are compared.
unfoldable pub deserialize_with_header : (s : Shape) → List ℕ → Outcome CdrError (Value s × ℕ)
unfolding deserialize
deserialize_with_header s (a ∷ b ∷ c ∷ d ∷ rest) =
    if a == 0x00
    then (if b == 0x01
        then (deserialize s 0 rest >>= λ (v, pos, left). ok (v, 4 + pos))
        else err unsupported_encapsulation)
    else err unsupported_encapsulation
deserialize_with_header s buf = err buffer_underflow
