-- ===== src/Ros2/Text.antt =====
-- `push_str`, `push_char` and the decimal numbers, which src/ros2/keyexpr.rs, src/ros2/qos.rs and
-- src/ros2/liveliness.rs each write for themselves. A `heapless::String<N>` is its bytes; a push
-- that would pass its capacity fails and changes nothing.
pub mod Decimal
pub mod Push
use zenoh_ros2_nostd.Common.{
  ℕ, zero, suc, ◌+◌, ◌/◌, ◌%◌, List, [], ◌∷◌, ◌++◌, length, ltb, ◌==◌, if◌then◌else◌, Outcome, ok,
  err, panic,
}

-- `Result<_, ()>`
abbrev pub Text : Type 0
Text = Outcome (Unit {0}) (List ℕ)

module _ (capacity : ℕ) where
  unfoldable pub push_str : List ℕ → List ℕ → Text
  push_str val s = if ltb capacity (length s + length val) then err tt else ok (s ++ val)

  abbrev pub push_char : ℕ → List ℕ → Text
  push_char c s = push_str (c ∷ []) s

-- `while v > 0`, from the last of ten places; one place more would be out of range.
unfoldable pub digits_loop : ℕ → ℕ → List ℕ → Text
digits_loop zero v digits = if v == 0 then ok digits else panic
digits_loop (suc places) v digits =
    let rest = digits_loop places (v / 10) ((b'0' + v % 10) ∷ digits) in
    if v == 0 then ok digits else rest

unfoldable pub push_digits : ℕ → List ℕ → Text → Text
push_digits capacity s (ok digits) = push_str capacity digits s
push_digits capacity s (err e) = err e
push_digits capacity s panic = panic

unfoldable pub write_u32 : ℕ → ℕ → List ℕ → Text
write_u32 capacity val s =
    if val == 0 then push_char capacity b'0' s else push_digits capacity s (digits_loop 10 val [])
