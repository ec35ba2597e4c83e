-- ===== src/Ros2/Liveliness.antt =====
-- src/ros2/liveliness.rs: the key of the token that announces an entity to the graph.
pub mod Parts
pub mod Written
pub mod Token
use zenoh_ros2_nostd.Common.{ℕ, ◌/◌, ◌%◌, List, [], ◌∷◌, get_or, ok, ◌>>=◌}
use zenoh_ros2_nostd.Transport.Protocol.{ZenohId, as_bytes}
use zenoh_ros2_nostd.Ros2.Text.{Text, push_str, push_char, write_u32}
use zenoh_ros2_nostd.Ros2.Mangle.{push_mangled, push_mangled_absolute}
use zenoh_ros2_nostd.Ros2.Qos.{Qos, to_rmw_qos_keyexpr}

abbrev pub max_liveliness_len : ℕ
max_liveliness_len = 512

pub data EntityType : Type 0 where
  publisher subscriber service_server service_client : EntityType

-- `EntityType::as_str`
unfoldable pub as_str : EntityType → List ℕ
as_str publisher = b'M' ∷ b'P' ∷ []
as_str subscriber = b'M' ∷ b'S' ∷ []
as_str service_server = b'S' ∷ b'S' ∷ []
as_str service_client = b'S' ∷ b'C' ∷ []

abbrev pub hex : List ℕ
hex =
    b'0' ∷ b'1' ∷ b'2' ∷ b'3' ∷ b'4' ∷ b'5' ∷ b'6' ∷ b'7' ∷ b'8' ∷ b'9' ∷ b'a' ∷ b'b' ∷ b'c' ∷ b'd'
    ∷ b'e' ∷ b'f' ∷ []

-- `byte >> 4` and `byte & 0x0F` of a u8.
unfoldable pub push_hex_byte : ℕ → ℕ → List ℕ → Text
push_hex_byte capacity byte s = do
  s ← push_char capacity (get_or hex (byte / 16) 0) s
  push_char capacity (get_or hex (byte % 16) 0) s

-- `for b in zid.as_bytes()`
unfoldable pub push_hex_bytes : ℕ → List ℕ → List ℕ → Text
unfolding push_hex_byte
push_hex_bytes capacity [] s = ok s
push_hex_bytes capacity (b ∷ bytes) s = push_hex_byte capacity b s >>= push_hex_bytes capacity bytes

-- The arguments of `build_liveliness_token`; the numbers are u32.
pub record Entity : Type 0 where
  pub domain_id : ℕ
  pub zid : ZenohId
  pub nid : ℕ
  pub entity_id : ℕ
  pub entity_type : EntityType
  pub enclave : List ℕ
  pub namespace : List ℕ
  pub node_name : List ℕ
  pub topic_name : List ℕ
  pub type_name : List ℕ
  pub type_hash : List ℕ
  pub qos : Qos

-- `"@ros2_lv/"`
abbrev pub prefix : List ℕ
prefix = b'@' ∷ b'r' ∷ b'o' ∷ b's' ∷ b'2' ∷ b'_' ∷ b'l' ∷ b'v' ∷ b'/' ∷ []

unfoldable pub build_liveliness_token : Entity → Text
unfolding push_hex_bytes as_str
build_liveliness_token e =
    let cap = max_liveliness_len in
    do
      s ← push_str cap prefix []
      s ← write_u32 cap e.domain_id s
      s ← push_char cap b'/' s
      s ← push_hex_bytes cap (as_bytes e.zid) s
      s ← push_char cap b'/' s
      s ← write_u32 cap e.nid s
      s ← push_char cap b'/' s
      s ← write_u32 cap e.entity_id s
      s ← push_char cap b'/' s
      s ← push_str cap (as_str e.entity_type) s
      s ← push_char cap b'/' s
      s ← push_mangled_absolute cap e.enclave s
      s ← push_char cap b'/' s
      s ← push_mangled_absolute cap e.namespace s
      s ← push_char cap b'/' s
      s ← push_mangled cap e.node_name s
      s ← push_char cap b'/' s
      s ← push_mangled_absolute cap e.topic_name s
      s ← push_char cap b'/' s
      s ← push_mangled cap e.type_name s
      s ← push_char cap b'/' s
      s ← push_mangled cap e.type_hash s
      s ← push_char cap b'/' s
      qos_keyexpr ← to_rmw_qos_keyexpr e.qos
      s ← push_str cap qos_keyexpr s
      ok s
