-- ===== src/Cdr/Written.antt =====
-- src/cdr: the serializer against images, and the two entry points with the header.
use zenoh_ros2_nostd.Common.{
  ℕ, ◌+◌, ◌%◌, ◌≤◌, ◌<◌, ◌≡◌, refl, List, [], ◌∷◌, ◌++◌, true, none, some, length, length-append,
  length-drop, drop, drop-drop, All, All-mapped, lt→ltb, ltb, le→ltb, ltb→le, ◌==◌, if◌then◌else◌,
  Bool-cases, inl, inr, arith, ok, err,
}
use zenoh_ros2_nostd.Common.Words.{le_bytes}
use zenoh_ros2_nostd.Error.Top.{buffer_overflow}
use zenoh_ros2_nostd.Transport.Reader.{usize_size}
use zenoh_ros2_nostd.Cdr.{
  Width, four, size, Shape, Value, boolean, text, octets, empty, number, optional, pair, sequence,
}
use zenoh_ros2_nostd.Cdr.Ser.{
  u32_size, Ser, write_bytes, align, ◌then_write◌, serialize_number, serialize_bool, serialize_len,
  serialize_str, serialize_bytes, serialize_elements, serialize, serialize_with_header,
  cdr_le_header,
}
use zenoh_ros2_nostd.Cdr.De.{deserialize_with_header}
use zenoh_ros2_nostd.Cdr.Image.{padding, number_image, images, image, IsValue}
use zenoh_ros2_nostd.Cdr.RoundTrip.{deserialize-image}

-- All of the bytes, or an error where they do not fit.
unfoldable pub emit : (ℕ → List ℕ) → Ser
emit f pos rest =
    if ltb (length rest) (length (f pos))
    then err buffer_overflow
    else ok (f pos, pos + length (f pos), drop (length (f pos)) rest)

abbrev pub Emits : Ser → (ℕ → List ℕ) → Type 0
Emits m f = (pos : ℕ) (rest : List ℕ) → m pos rest ≡ emit f pos rest

write_bytes-Emits : (bytes : List ℕ) → Emits (write_bytes bytes) (λ pos. bytes)
unfolding write_bytes emit
write_bytes-Emits bytes pos rest = refl

align-Emits : (n : ℕ) → Emits (align n) (padding n)
unfolding align write_bytes emit
align-Emits n pos rest = elim (Bool-cases (pos % n == 0)) [
  | inl z ↦ rw z (ground arith)
  | inr z ↦ rw z refl
]

then_write-Emits :
    (m k : Ser) (f g : ℕ → List ℕ)
    → Emits m f
    → Emits k g
    → Emits (m then_write k) (λ pos. f pos ++ g (pos + length (f pos)))
unfolding ◌then_write◌ emit
then_write-Emits m k f g hm hk pos rest =
    let whole = length-append (f pos) (g (pos + length (f pos))) in
    elim (Bool-cases (ltb (length rest) (length (f pos)))) [
      | inl full ↦ rw (hm pos rest, full) (ground (arith, whole))
      | inr fits ↦
          rw (hm pos rest, fits, hk (pos + length (f pos)) (drop (length (f pos)) rest))
            (ground (
              arith,
              whole,
              length-drop (length (f pos)) rest,
              drop-drop (length (f pos)) (length (g (pos + length (f pos)))) rest,
            ))
    ]

serialize_number-Emits : (w : Width) (v : ℕ) → Emits (serialize_number w v) (number_image w v)
unfolding serialize_number
serialize_number-Emits w v =
    then_write-Emits (align (size w)) (write_bytes (le_bytes (size w) v)) (padding (size w))
      (λ pos. le_bytes (size w) v) (align-Emits (size w)) (write_bytes-Emits (le_bytes (size w) v))

serialize_len-Emits : (n : ℕ) → n < u32_size → Emits (serialize_len n) (number_image four n)
unfolding serialize_len
serialize_len-Emits n h pos rest =
    let small : n % u32_size ≡ n = omega arith in
    rw small (
      then_write-Emits (align 4) (write_bytes (le_bytes 4 n)) (padding 4) (λ pos. le_bytes 4 n)
        (align-Emits 4) (write_bytes-Emits (le_bytes 4 n)) pos rest)

serialize_str-Emits :
    (v : List ℕ)
    → length v + 1 < u32_size
    → Emits (serialize_str v) (λ pos. number_image four (length v + 1) pos ++ (v ++ (0 ∷ [])))
unfolding serialize_str
serialize_str-Emits v h =
    then_write-Emits (serialize_len (length v + 1)) (write_bytes v then_write write_bytes (0 ∷ []))
      (number_image four (length v + 1)) (λ pos. v ++ (0 ∷ []))
      (serialize_len-Emits (length v + 1) h)
      (then_write-Emits (write_bytes v) (write_bytes (0 ∷ [])) (λ pos. v) (λ pos. 0 ∷ [])
        (write_bytes-Emits v) (write_bytes-Emits (0 ∷ [])))

serialize_bytes-Emits :
    (v : List ℕ)
    → length v < u32_size
    → Emits (serialize_bytes v) (λ pos. number_image four (length v) pos ++ v)
unfolding serialize_bytes
serialize_bytes-Emits v h =
    then_write-Emits (serialize_len (length v)) (write_bytes v) (number_image four (length v))
      (λ pos. v) (serialize_len-Emits (length v) h) (write_bytes-Emits v)

nothing-Emits : Emits (λ pos rest. ok ([], pos, rest)) (λ pos. [])
unfolding emit
nothing-Emits pos rest = ground arith

serialize_elements-Emits :
    {A : Type 0} (f : A → Ser) (g : A → ℕ → List ℕ) (xs : List A)
    → All (λ x. Emits (f x) (g x)) xs
    → Emits (serialize_elements f xs) (images g xs)
unfolding serialize_elements
serialize_elements-Emits f g [] all pos rest = nothing-Emits pos rest
serialize_elements-Emits f g (x ∷ xs) (here, there) pos rest =
    then_write-Emits (f x) (serialize_elements f xs) (g x) (images g xs) here
      (serialize_elements-Emits f g xs there) pos rest

-- What the serializer writes of a value is its image, in one piece: in any buffer, at any position,
-- and where the image does not fit, it fails.
pub serialize-Emits : (s : Shape) (v : Value s) → IsValue s v → Emits (serialize s v) (image s v)
unfolding serialize image serialize_bool
serialize-Emits boolean v h pos rest = write_bytes-Emits ((if v then 1 else 0) ∷ []) pos rest
serialize-Emits text v (u, h) pos rest = serialize_str-Emits v h pos rest
serialize-Emits octets v h pos rest = serialize_bytes-Emits v h pos rest
serialize-Emits empty v h pos rest = nothing-Emits pos rest
serialize-Emits (number w) v h pos rest = serialize_number-Emits w v pos rest
serialize-Emits (optional s) none h pos rest = write_bytes-Emits (0 ∷ []) pos rest
serialize-Emits (optional s) (some v) h pos rest =
    then_write-Emits (serialize_bool true) (serialize s v) (λ pos. 1 ∷ []) (image s v)
      (write_bytes-Emits (1 ∷ [])) (serialize-Emits s v h) pos rest
serialize-Emits (pair s t) (v, w) (hv, hw) pos rest =
    then_write-Emits (serialize s v) (serialize t w) (image s v) (image t w)
      (serialize-Emits s v hv) (serialize-Emits t w hw) pos rest
serialize-Emits (sequence s) vs (h, all) pos rest =
    then_write-Emits (serialize_len (length vs)) (serialize_elements (serialize s) vs)
      (number_image four (length vs)) (images (image s) vs) (serialize_len-Emits (length vs) h)
      (serialize_elements-Emits (serialize s) (image s) vs
        (All-mapped vs (λ x hx. serialize-Emits s x hx) all))
      pos rest

-- A message goes through the wire unchanged, with its encapsulation header: in a buffer with room
-- for it, the serializer succeeds and reports its length, and whatever comes to stand behind it,
-- the deserializer returns the same message, and that length. The message is of any shape, holds
-- what a message can hold, and is shorter than a usize.
pub deserialize_with_header-serialize_with_header :
    (s : Shape) (v : Value s) (buf rest : List ℕ)
    → IsValue s v
    → 4 + length (image s v 0) ≤ length buf
    → length (image s v 0) < usize_size
    → (w : List ℕ) × (serialize_with_header s v buf ≡ ok (w, length w))
      × (deserialize_with_header s (w ++ rest) ≡ ok (v, length w))
unfolding serialize_with_header deserialize_with_header emit
deserialize_with_header-serialize_with_header s v buf rest h room short = (
  cdr_le_header ++ image s v 0,
  rw
      (
        le→ltb (length buf) 4 (omega arith),
        serialize-Emits s v h 0 (drop 4 buf),
        le→ltb (length (drop 4 buf)) (length (image s v 0)) (omega (arith, length-drop 4 buf)),
      )
      (ground arith),
  rw (deserialize-image s v h 0 rest (omega arith)) (ground arith),
)

-- A message that does not fit the buffer behind the header is an error.
pub serialize_with_header_full :
    (s : Shape) (v : Value s) (buf : List ℕ)
    → IsValue s v
    → length buf < 4 + length (image s v 0)
    → serialize_with_header s v buf ≡ err buffer_overflow
unfolding serialize_with_header emit
serialize_with_header_full s v buf h full = elim (Bool-cases (ltb (length buf) 4)) [
  | inl no_header ↦ rw no_header refl
  | inr header ↦ rw (
    header,
    serialize-Emits s v h 0 (drop 4 buf),
    lt→ltb (length (drop 4 buf)) (length (image s v 0))
        (omega (arith, length-drop 4 buf, ltb→le (length buf) 4 header)),
  )
]
