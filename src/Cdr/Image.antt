-- ===== src/Cdr/Image.antt =====
-- The encoding of a value as a list of bytes, by the position it starts at, and the values that a
-- message can hold.
use zenoh_ros2_nostd.Common.{
  ℕ, ◌+◌, ◌-◌, ◌%◌, ◌^◌, ◌<◌, ◌≡◌, List, [], ◌∷◌, ◌++◌, true, none, some, length, replicate, All,
  ◌==◌, if◌then◌else◌,
}
use zenoh_ros2_nostd.Common.Words.{le_bytes}
use zenoh_ros2_nostd.Transport.Slice.Utf8.{is_utf8}
use zenoh_ros2_nostd.Cdr.{
  Width, four, size, Shape, Value, boolean, text, octets, empty, number, optional, pair, sequence,
}
use zenoh_ros2_nostd.Cdr.Ser.{u32_size}

abbrev pub padding : ℕ → ℕ → List ℕ
padding n pos = if pos % n == 0 then [] else replicate (n - pos % n) 0

abbrev pub number_image : Width → ℕ → ℕ → List ℕ
number_image w v pos = padding (size w) pos ++ le_bytes (size w) v

abbrev pub images : {A : Type 0} → (A → ℕ → List ℕ) → List A → ℕ → List ℕ
images f [] pos = []
images f (x ∷ xs) pos = f x pos ++ images f xs (pos + length (f x pos))

-- A string has its length with the final 0 in front, bytes and sequences their length.
unfoldable pub image : (s : Shape) → Value s → ℕ → List ℕ
image boolean v pos = (if v then 1 else 0) ∷ []
image text v pos = number_image four (length v + 1) pos ++ (v ++ (0 ∷ []))
image octets v pos = number_image four (length v) pos ++ v
image empty v pos = []
image (number w) v pos = number_image w v pos
image (optional s) none pos = 0 ∷ []
image (optional s) (some v) pos = 1 ∷ image s v (pos + 1)
image (pair s t) (v, w) pos = image s v pos ++ image t w (pos + length (image s v pos))
image (sequence s) vs pos =
    let len = number_image four (length vs) pos in len ++ images (image s) vs (pos + length len)

-- The values that a message can hold: numbers of their width, text that is UTF-8, and lengths that
-- fit a u32.
abbrev pub IsValue : (s : Shape) → Value s → Type 0
IsValue boolean v = Unit {0}
IsValue text v = (is_utf8 v ≡ true) × (length v + 1 < u32_size)
IsValue octets v = length v < u32_size
IsValue empty v = Unit {0}
IsValue (number w) v = v < 256 ^ size w
IsValue (optional s) none = Unit {0}
IsValue (optional s) (some v) = IsValue s v
IsValue (pair s t) (v, w) = IsValue s v × IsValue t w
IsValue (sequence s) vs = (length vs < u32_size) × All (IsValue s) vs
