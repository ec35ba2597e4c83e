-- ===== src/Cdr.antt =====
-- src/cdr: the encoding of ROS 2 messages, little endian, with every number at a multiple of its
-- size. A message type is a shape of the serde data model, and its values are the shape's values.
pub mod Ser
pub mod De
pub mod Image
pub mod RoundTrip
pub mod Written
use zenoh_ros2_nostd.Common.{ℕ, List, Bool, Option}

-- i8 to i64, u8 to u64, f32 and f64 are numbers of 1, 2, 4 or 8 bytes; a signed number and a float
-- stand as their bit patterns.
pub data Width : Type 0 where
  one two four eight : Width

abbrev pub size : Width → ℕ
size one = 1
size two = 2
size four = 4
size eight = 8

-- A struct or a tuple is its fields, one after the other, an array its elements.
pub data Shape : Type 0 where
  boolean text octets empty : Shape
  number : Width → Shape
  optional : Shape → Shape
  pair : Shape → Shape → Shape
  sequence : Shape → Shape

-- A text is its bytes.
abbrev pub Value : Shape → Type 0
Value boolean = Bool
Value text = List ℕ
Value octets = List ℕ
Value empty = Unit {0}
Value (number w) = ℕ
Value (optional s) = Option (Value s)
Value (pair s t) = Value s × Value t
Value (sequence s) = List (Value s)
