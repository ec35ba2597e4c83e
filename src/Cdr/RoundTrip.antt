-- ===== src/Cdr/RoundTrip.antt =====
-- src/cdr/de.rs: the deserializer on images of values.
use zenoh_ros2_nostd.Common.{
  ℕ, suc, ◌+◌, ◌-◌, ◌%◌, ◌^◌, ◌<◌, ◌≡◌, refl, sym, ap, ◌∙◌, append_assoc, List, [], ◌∷◌, ◌++◌, Bool,
  true, false, none, some, length, length-append, length-replicate, take, drop, take_front,
  drop_front, replicate, All, All-mapped, le→ltb, lt→leb, ne→==, ◌==◌, if◌then◌else◌, Bool-cases,
  inl, inr, arith, ok,
}
use zenoh_ros2_nostd.Common.Words.{le_bytes, length-le_bytes, from_le_bytes-le_bytes}
use zenoh_ros2_nostd.Transport.Reader.{usize_size}
use zenoh_ros2_nostd.Transport.Slice.Utf8.{is_utf8}
use zenoh_ros2_nostd.Cdr.{
  Width, one, four, size, Shape, Value, boolean, text, octets, empty, number, optional, pair,
  sequence,
}
use zenoh_ros2_nostd.Cdr.Ser.{u32_size}
use zenoh_ros2_nostd.Cdr.De.{
  De, read_bytes, skip_padding, read_number, deserialize_bool, deserialize_str, deserialize_bytes,
  next_elements, deserialize,
}
use zenoh_ros2_nostd.Cdr.Image.{padding, number_image, images, image, IsValue}

-- A reader reads a value back at a position: it returns the value, and stands right behind it.
abbrev pub ReadsBack : {A : Type 0} → De A → (ℕ → List ℕ) → A → Type 0
ReadsBack f bytes v =
    (pos : ℕ) (rest : List ℕ)
    → pos + length (bytes pos) < usize_size
    → f pos (bytes pos ++ rest) ≡ ok (v, pos + length (bytes pos), rest)

read_bytes_front :
    (n : ℕ) (bytes : List ℕ) → n ≡ length bytes → ReadsBack (read_bytes n) (λ pos. bytes) bytes
unfolding read_bytes
read_bytes_front n bytes e pos rest h = rw (
  e,
  lt→leb usize_size (pos + length bytes) h,
  le→ltb (length (bytes ++ rest)) (length bytes) (omega (arith, length-append bytes rest)),
  take_front,
  drop_front,
)

skip_padding_front :
    (n pos : ℕ) (rest : List ℕ)
    → skip_padding n pos (padding n pos ++ rest) ≡ ok (tt, pos + length (padding n pos), rest)
unfolding skip_padding
skip_padding_front n pos rest = elim (Bool-cases (pos % n == 0)) [
  | inl z ↦ rw z (ground arith)
  | inr z ↦
      let zeros = replicate {A = ℕ} (n - pos % n) 0 in
      let len = length-replicate {A = ℕ} (n - pos % n) 0 in
      rw
        (z, le→ltb (length (zeros ++ rest)) (n - pos % n) (omega (arith, length-append zeros rest)))
        (ap (λ k. ok (tt, pos + k, drop k (zeros ++ rest))) (sym len)
          ∙ ap (λ l. ok (tt, pos + length zeros, l)) (drop_front zeros rest))
]

read_number-number_image :
    (w : Width) (v : ℕ) → v < 256 ^ size w → ReadsBack (read_number w) (number_image w v) v
unfolding read_number
read_number-number_image w v h pos rest fits =
    let pad = padding (size w) pos in
    let bytes = le_bytes (size w) v in
    let whole = length-append pad bytes in
    rw
      (
        append_assoc pad bytes rest,
        skip_padding_front (size w) pos (bytes ++ rest),
        read_bytes_front (size w) bytes (sym (length-le_bytes (size w) v)) (pos + length pad) rest
            (omega arith),
        from_le_bytes-le_bytes (size w) v h,
      )
      (ground (arith, whole))

read_byte_back : (v : ℕ) → ReadsBack (read_number one) (λ pos. v ∷ []) v
unfolding read_number skip_padding read_bytes
read_byte_back v pos rest fits =
    let aligned : pos % 1 ≡ 0 = omega arith in
    rw (aligned, lt→leb usize_size (pos + 1) fits, le→ltb (suc (length rest)) 1 (omega arith))
      (ground arith)

deserialize_bool_back : (b : Bool) → ReadsBack deserialize_bool (λ pos. (if b then 1 else 0) ∷ []) b
unfolding deserialize_bool
deserialize_bool_back true pos rest fits = rw (read_byte_back 1 pos rest fits)
deserialize_bool_back false pos rest fits = rw (read_byte_back 0 pos rest fits)

deserialize_str_back :
    (v : List ℕ)
    → is_utf8 v ≡ true
    → length v + 1 < u32_size
    → ReadsBack deserialize_str (λ pos. number_image four (length v + 1) pos ++ (v ++ (0 ∷ []))) v
unfolding deserialize_str
deserialize_str_back v u h pos rest fits =
    let head = number_image four (length v + 1) pos in
    let body = v ++ (0 ∷ []) in
    let whole = length-append head body in
    let inner = length-append v (0 ∷ []) in
    let cut : take (length v + 1 - 1) body ≡ v =
      ap (λ k. take k body) {x = length v + 1 - 1} {y = length v} (omega arith)
      ∙ take_front v (0 ∷ []) in
    rw
      (
        append_assoc head body rest,
        read_number-number_image four (length v + 1) (omega arith) pos (body ++ rest) (omega arith),
        ne→== (length v + 1) 0 (omega arith),
        read_bytes_front (length v + 1) body (omega arith) (pos + length head) rest (omega arith),
        cut,
        u,
      )
      (ground (arith, whole))

deserialize_bytes_back :
    (v : List ℕ)
    → length v < u32_size
    → ReadsBack deserialize_bytes (λ pos. number_image four (length v) pos ++ v) v
unfolding deserialize_bytes
deserialize_bytes_back v h pos rest fits =
    let head = number_image four (length v) pos in
    let whole = length-append head v in
    rw
      (
        append_assoc head v rest,
        read_number-number_image four (length v) (omega arith) pos (v ++ rest) (omega arith),
        read_bytes_front (length v) v refl (pos + length head) rest (omega arith),
      )
      (ground (arith, whole))

next_elements_back :
    {A : Type 0} (f : De A) (g : A → ℕ → List ℕ) (xs : List A)
    → All (λ x. ReadsBack f (g x) x) xs
    → ReadsBack (next_elements f (length xs)) (images g xs) xs
unfolding next_elements
next_elements_back f g [] all pos rest fits = ground arith
next_elements_back f g (x ∷ xs) (here, there) pos rest fits =
    let first = g x pos in
    let others = images g xs (pos + length first) in
    let whole = length-append first others in
    rw
      (
        append_assoc first others rest,
        here pos (others ++ rest) (omega arith),
        next_elements_back f g xs there (pos + length first) rest (omega arith),
      )
      (ground (arith, whole))

-- The deserializer reads back the image of every value, at every position and whatever follows, and
-- stops right behind it, where the positions are those of a usize.
pub deserialize-image :
    (s : Shape) (v : Value s) → IsValue s v → ReadsBack (deserialize s) (image s v) v
unfolding deserialize image
deserialize-image boolean v h pos rest fits = deserialize_bool_back v pos rest fits
deserialize-image text v (u, h) pos rest fits = deserialize_str_back v u h pos rest fits
deserialize-image octets v h pos rest fits = deserialize_bytes_back v h pos rest fits
deserialize-image empty v h pos rest fits = ground arith
deserialize-image (number w) v h pos rest fits = read_number-number_image w v h pos rest fits
deserialize-image (optional s) none h pos rest fits = rw (deserialize_bool_back false pos rest fits)
deserialize-image (optional s) (some v) h pos rest fits =
    rw
      (
        deserialize_bool_back true pos (image s v (pos + 1) ++ rest) (omega arith),
        deserialize-image s v h (pos + 1) rest (omega arith),
      )
      (ground arith)
deserialize-image (pair s t) (v, w) (hv, hw) pos rest fits =
    let first = image s v pos in
    let second = image t w (pos + length first) in
    let whole = length-append first second in
    rw
      (
        append_assoc first second rest,
        deserialize-image s v hv pos (second ++ rest) (omega arith),
        deserialize-image t w hw (pos + length first) rest (omega arith),
      )
      (ground (arith, whole))
deserialize-image (sequence s) vs (h, all) pos rest fits =
    let head = number_image four (length vs) pos in
    let body = images (image s) vs (pos + length head) in
    let whole = length-append head body in
    rw
      (
        append_assoc head body rest,
        read_number-number_image four (length vs) (omega arith) pos (body ++ rest) (omega arith),
        next_elements_back (deserialize s) (image s) vs
            (All-mapped vs (λ x hx. deserialize-image s x hx) all) (pos + length head) rest
            (omega arith),
      )
      (ground (arith, whole))
