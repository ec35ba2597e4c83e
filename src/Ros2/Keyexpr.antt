-- ===== src/Ros2/Keyexpr.antt =====
-- src/ros2/keyexpr.rs: the key expression of a topic.
pub mod Image
use zenoh_ros2_nostd.Common.{ℕ, List, [], ◌∷◌, ◌==◌, if◌then◌else◌, ok, ◌>>=◌}
use zenoh_ros2_nostd.Ros2.Text.{Text, push_str, push_char, write_u32}

abbrev pub max_key_expr_len : ℕ
max_key_expr_len = 256

pub record TopicKeyExpr : Type 0 where
  pub domain_id : ℕ
  pub topic_name : List ℕ
  pub type_name : List ℕ
  pub type_hash : List ℕ

-- `strip_prefix('/').unwrap_or(..)`
unfoldable pub strip_slash : List ℕ → List ℕ
strip_slash [] = []
strip_slash (c ∷ rest) = if c == b'/' then rest else c ∷ rest

unfoldable pub build_topic_key_expr : ℕ → List ℕ → List ℕ → List ℕ → Text
build_topic_key_expr domain_id topic_name type_name type_hash = do
  s ← write_u32 max_key_expr_len domain_id []
  s ← push_char max_key_expr_len b'/' s
  s ← push_str max_key_expr_len (strip_slash topic_name) s
  s ← push_char max_key_expr_len b'/' s
  s ← push_str max_key_expr_len type_name s
  s ← push_char max_key_expr_len b'/' s
  s ← push_str max_key_expr_len type_hash s
  ok s

-- The same text, written a second time in the source.
unfoldable pub to_key_expr : TopicKeyExpr → Text
to_key_expr t = do
  s ← write_u32 max_key_expr_len t.domain_id []
  s ← push_char max_key_expr_len b'/' s
  s ← push_str max_key_expr_len (strip_slash t.topic_name) s
  s ← push_char max_key_expr_len b'/' s
  s ← push_str max_key_expr_len t.type_name s
  s ← push_char max_key_expr_len b'/' s
  s ← push_str max_key_expr_len t.type_hash s
  ok s
