-- ===== src/Tests/Cdr.antt =====
-- A message with a text, a double and a sequence of shorts, and the answer to a goal.
use zenoh_ros2_nostd.Common.{ℕ, ◌≡◌, refl, List, [], ◌∷◌, ◌++◌, length, replicate, true, arith, ok}
use zenoh_ros2_nostd.Transport.Slice.Utf8.{is_utf8}
use zenoh_ros2_nostd.Cdr.{Shape, Value, text, number, sequence, pair, eight, two}
use zenoh_ros2_nostd.Cdr.Ser.{serialize_with_header}
use zenoh_ros2_nostd.Cdr.De.{deserialize_with_header}
use zenoh_ros2_nostd.Cdr.Image.{image, IsValue}
use zenoh_ros2_nostd.Ros2.Messages.Caps.{goal_answer, shape_of, serialize_with_header-cap_of}
use zenoh_ros2_nostd.Cdr.Written.{deserialize_with_header-serialize_with_header}

abbrev reading : Shape
reading = pair text (pair (number eight) (sequence (number two)))

abbrev value : Value reading
value = (b'h' ∷ b'i' ∷ [], (1_000, 1 ∷ 2 ∷ 3 ∷ []))

value-IsValue : IsValue reading value
unfolding is_utf8
value-IsValue = (
  (refl, omega arith),
  (omega arith, (omega arith, (omega arith, (omega arith, (omega arith, tt))))),
)

length-value : length (image reading value 0) ≡ 26
unfolding image
length-value = refl

deserialize_with_header-serialize_with_header_example :
    (w : List ℕ) × (serialize_with_header reading value (replicate 64 0) ≡ ok (w, length w))
    × (deserialize_with_header reading (w ++ (9 ∷ [])) ≡ ok (value, length w))
deserialize_with_header-serialize_with_header_example =
    deserialize_with_header-serialize_with_header reading value (replicate 64 0) (9 ∷ [])
      value-IsValue (omega (arith, length-value)) (omega (arith, length-value))

serialize_with_header-cap_of_example :
    (w : List ℕ) × (serialize_with_header (shape_of goal_answer) (true, (5, 7)) (replicate 16 0)
      ≡ ok (w, 16))
    × (length w ≡ 16)
serialize_with_header-cap_of_example =
    serialize_with_header-cap_of goal_answer (true, (5, 7)) (replicate 16 0)
      (tt, (omega arith, omega arith)) refl
