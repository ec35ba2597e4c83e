-- ===== src/Ros2/Mangle.antt =====
-- src/ros2/liveliness.rs: `push_mangled` and `push_mangled_absolute`. A name is its bytes: the
-- slash and the percent sign are one byte each in UTF-8, and no other character holds them.
pub mod Image
use zenoh_ros2_nostd.Common.{ℕ, List, [], ◌∷◌, Bool, true, false, ◌==◌, if◌then◌else◌, ok, ◌>>=◌}
use zenoh_ros2_nostd.Ros2.Text.{Text, push_str, push_char}

-- `name.is_empty() || name == "/"`
abbrev pub is_root : List ℕ → Bool
is_root [] = true
is_root (c ∷ []) = c == b'/'
is_root (c ∷ d ∷ rest) = false

abbrev pub starts_with_slash : List ℕ → Bool
starts_with_slash [] = false
starts_with_slash (c ∷ rest) = c == b'/'

abbrev pub mangled_char : ℕ → ℕ
mangled_char c = if c == b'/' then b'%' else c

module _ (capacity : ℕ) where
  -- `for c in name.chars()`
  unfoldable pub push_chars : List ℕ → List ℕ → Text
  push_chars [] s = ok s
  push_chars (c ∷ rest) s = push_char capacity (mangled_char c) s >>= push_chars rest

  unfoldable pub push_mangled : List ℕ → List ℕ → Text
  push_mangled name s = if is_root name then push_char capacity b'%' s else push_chars name s

  unfoldable pub push_mangled_absolute : List ℕ → List ℕ → Text
  push_mangled_absolute name s =
      if is_root name
      then push_char capacity b'%' s
      else ((if starts_with_slash name then ok s else push_char capacity b'%' s)
          >>= push_chars name)
