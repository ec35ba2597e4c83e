-- ===== src/Transport/Codec/Declare.antt =====
-- src/transport/codec.rs: the declarations of keys, subscribers and liveliness tokens.
pub mod Image
use zenoh_ros2_nostd.Common.{ℕ, bit_or, List, [], ◌∷◌, Bool, true, false, not, if◌then◌else◌}
use zenoh_ros2_nostd.Transport.Writer.{Encoder, write_byte, write_when, ◌⨾◌}
use zenoh_ros2_nostd.Transport.Vbyte.{encode_vbyte}
use zenoh_ros2_nostd.Transport.Slice.{encode_string}
use zenoh_ros2_nostd.Transport.Protocol.Ids.{
  network_declare, declare_keyexpr, declare_subscriber, declare_token,
}
use zenoh_ros2_nostd.Transport.Protocol.Flags.{flag_n, flag_m}

abbrev pub is_empty : List ℕ → Bool
is_empty [] = true
is_empty (x ∷ xs) = false

unfoldable pub encode_declare_keyexpr : ℕ → List ℕ → Encoder
encode_declare_keyexpr key_id key_expr =
    write_byte network_declare
    ⨾ write_byte (bit_or declare_keyexpr (if is_empty key_expr then 0 else flag_n))
    ⨾ encode_vbyte key_id
    ⨾ encode_vbyte 0
    ⨾ write_when (not (is_empty key_expr)) (encode_string key_expr)

unfoldable pub encode_declare_subscriber : ℕ → ℕ → Encoder
encode_declare_subscriber sub_id key_id =
    write_byte network_declare
    ⨾ write_byte declare_subscriber
    ⨾ encode_vbyte sub_id
    ⨾ encode_vbyte key_id

unfoldable pub encode_declare_subscriber_mapped : ℕ → ℕ → Encoder
encode_declare_subscriber_mapped sub_id key_id =
    write_byte network_declare
    ⨾ write_byte (bit_or declare_subscriber flag_m)
    ⨾ encode_vbyte sub_id
    ⨾ encode_vbyte key_id

unfoldable pub encode_declare_token : ℕ → List ℕ → Encoder
encode_declare_token token_id key_expr =
    write_byte network_declare
    ⨾ write_byte (bit_or declare_token (if is_empty key_expr then 0 else flag_n))
    ⨾ encode_vbyte token_id
    ⨾ encode_vbyte 0
    ⨾ write_when (not (is_empty key_expr)) (encode_string key_expr)

unfoldable pub encode_declare_token_mapped : ℕ → ℕ → Encoder
encode_declare_token_mapped token_id key_id =
    write_byte network_declare
    ⨾ write_byte (bit_or declare_token flag_m)
    ⨾ encode_vbyte token_id
    ⨾ encode_vbyte key_id
