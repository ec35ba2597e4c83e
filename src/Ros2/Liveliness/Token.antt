-- ===== src/Ros2/Liveliness/Token.antt =====
-- The token of an entity in one piece, and its parts.
use zenoh_ros2_nostd.Common.{
  ℕ, ◌^◌, ◌<◌, ◌≡◌, refl, ◌∙◌, List, [], ◌∷◌, ◌++◌, length, ltb, if◌then◌else◌, ok, err, ◌>>=◌,
}
use zenoh_ros2_nostd.Transport.Protocol.{as_bytes}
use zenoh_ros2_nostd.Ros2.Text.{Text, push_str, push_char, write_u32}
use zenoh_ros2_nostd.Ros2.Text.Decimal.{decimal, write_u32-push_str}
use zenoh_ros2_nostd.Ros2.Text.Push.{
  push_str->>=, push_str-ok, push_str-nil, IsPart, push_str-IsPart, equal-IsPart,
}
use zenoh_ros2_nostd.Ros2.Mangle.{push_mangled, push_mangled_absolute}
use zenoh_ros2_nostd.Ros2.Mangle.Image.{
  absolute, absolute-NoSlash, push_mangled_absolute-absolute, relative, relative-NoSlash,
  push_mangled-relative,
}
use zenoh_ros2_nostd.Ros2.Qos.{Qos, depth, to_rmw_qos_keyexpr}
use zenoh_ros2_nostd.Ros2.Qos.Announced.{qos_text, to_rmw_qos_keyexpr-qos_text}
use zenoh_ros2_nostd.Ros2.Liveliness.{
  Entity, as_str, build_liveliness_token, max_liveliness_len, prefix,
}
use zenoh_ros2_nostd.Ros2.Liveliness.Parts.{join, split, split-join, decimal-NoSlash}
use zenoh_ros2_nostd.Ros2.Liveliness.Written.{
  hex_text, hex_bytes-IsPart, no_slash, no_slash-NoSlash, hex_text-NoSlash, as_str-NoSlash,
  qos_text-NoSlash,
}

-- What rmw_zenoh reads in a token, part by part.
abbrev pub parts_of : Entity → List (List ℕ)
parts_of e =
    (b'r' ∷ b'o' ∷ b's' ∷ b'2' ∷ b'_' ∷ b'l' ∷ b'v' ∷ [])
    ∷ decimal e.domain_id
    ∷ hex_text (as_bytes e.zid)
    ∷ decimal e.nid
    ∷ decimal e.entity_id
    ∷ as_str e.entity_type
    ∷ absolute e.enclave
    ∷ absolute e.namespace
    ∷ relative e.node_name
    ∷ absolute e.topic_name
    ∷ relative e.type_name
    ∷ relative e.type_hash
    ∷ qos_text e.qos
    ∷ []

-- The token is the mark `@` and the parts with slashes between them.
abbrev pub token_image : Entity → List ℕ
token_image e = b'@' ∷ join (parts_of e)

slash : IsPart max_liveliness_len (b'/' ∷ []) (push_char max_liveliness_len b'/')
slash = push_str-IsPart max_liveliness_len (b'/' ∷ [])

number :
    (v : ℕ) → v < 2 ^ 32 → IsPart max_liveliness_len (decimal v) (write_u32 max_liveliness_len v)
number v h =
    equal-IsPart max_liveliness_len (decimal v) _ (λ s. write_u32-push_str max_liveliness_len v s h)

absolute_name :
    (name : List ℕ)
    → IsPart max_liveliness_len (absolute name) (push_mangled_absolute max_liveliness_len name)
absolute_name name =
    equal-IsPart max_liveliness_len (absolute name) _
      (λ s. (push_mangled_absolute-absolute max_liveliness_len name s).0)

relative_name :
    (name : List ℕ)
    → IsPart max_liveliness_len (relative name) (push_mangled max_liveliness_len name)
relative_name name =
    equal-IsPart max_liveliness_len (relative name) _
      (push_mangled-relative max_liveliness_len name)

qos_part :
    (q : Qos) (s : List ℕ)
    → depth q.history < 2 ^ 32
    → (to_rmw_qos_keyexpr q >>= λ k. push_str max_liveliness_len k s >>= λ t. ok t)
      ≡ push_str max_liveliness_len (qos_text q) s
qos_part q s h =
    rw ((to_rmw_qos_keyexpr-qos_text q h).0) (push_str-ok max_liveliness_len (qos_text q) s)

-- The text behind the number of the entity and its type, and the step that writes it.
abbrev names_text : Entity → List ℕ
names_text e =
    absolute e.enclave
    ++ (b'/'
        ∷ (absolute e.namespace
            ++ (b'/'
                ∷ (relative e.node_name
                    ++ (b'/'
                        ∷ (absolute e.topic_name
                            ++ (b'/'
                                ∷ (relative e.type_name
                                    ++ (b'/'
                                        ∷ (relative e.type_hash ++ (b'/' ∷ qos_text e.qos)))))))))))

abbrev names_step : Entity → List ℕ → Text
names_step e s =
    let cap = max_liveliness_len in
    do
      s ← push_mangled_absolute cap e.enclave s
      s ← push_char cap b'/' s
      s ← push_mangled_absolute cap e.namespace s
      s ← push_char cap b'/' s
      s ← push_mangled cap e.node_name s
      s ← push_char cap b'/' s
      s ← push_mangled_absolute cap e.topic_name s
      s ← push_char cap b'/' s
      s ← push_mangled cap e.type_name s
      s ← push_char cap b'/' s
      s ← push_mangled cap e.type_hash s
      s ← push_char cap b'/' s
      qos_keyexpr ← to_rmw_qos_keyexpr e.qos
      s ← push_str cap qos_keyexpr s
      ok s

names :
    (e : Entity)
    → depth e.qos.history < 2 ^ 32
    → (s : List ℕ) → names_step e s ≡ push_str max_liveliness_len (names_text e) s
names e hq s = absolute_name e.enclave _ s _ (λ s. slash _ s _ (λ s.
    absolute_name e.namespace _ s _ (λ s. slash _ s _ (λ s. relative_name e.node_name _ s _ (λ s.
      slash _ s _ (λ s. absolute_name e.topic_name _ s _ (λ s. slash _ s _ (λ s.
        relative_name e.type_name _ s _ (λ s. slash _ s _ (λ s.
          relative_name e.type_hash _ s _ (λ s. slash _ s _ (λ s. qos_part e.qos s hq))))))))))))

build_liveliness_token-image :
    (e : Entity)
    → e.domain_id < 2 ^ 32
    → e.nid < 2 ^ 32
    → e.entity_id < 2 ^ 32
    → depth e.qos.history < 2 ^ 32
    → build_liveliness_token e
      ≡ (if ltb 512 (length (token_image e)) then err tt else ok (token_image e))
unfolding build_liveliness_token
build_liveliness_token-image e hd hn hi hq =
    push_str->>= max_liveliness_len prefix _ [] _ (λ s. number e.domain_id hd _ s _ (λ s.
      slash _ s _ (λ s. hex_bytes-IsPart max_liveliness_len (as_bytes e.zid) _ s _ (λ s.
        slash _ s _ (λ s. number e.nid hn _ s _ (λ s. slash _ s _ (λ s.
          number e.entity_id hi _ s _ (λ s. slash _ s _ (λ s.
            push_str-IsPart max_liveliness_len (as_str e.entity_type) _ s _
              (λ s. slash _ s _ (names e hq)))))))))))
    ∙ push_str-nil max_liveliness_len (token_image e)

-- The token of an entity has its parts between slashes, behind an `@`, if that has at most 512 bytes,
-- and is an error otherwise; and it falls apart at its slashes into exactly those parts, whatever
-- slashes the names hold, for numbers of 32 bits.
pub build_liveliness_token-parts_of :
    (e : Entity)
    → e.domain_id < 2 ^ 32
    → e.nid < 2 ^ 32
    → e.entity_id < 2 ^ 32
    → depth e.qos.history < 2 ^ 32
    → (build_liveliness_token e ≡ (
        if ltb 512 (length (b'@' ∷ join (parts_of e)))
        then err tt
        else ok (b'@' ∷ join (parts_of e))))
      × (split (join (parts_of e)) ≡ parts_of e)
unfolding no_slash
build_liveliness_token-parts_of e hd hn hi hq = (
  build_liveliness_token-image e hd hn hi hq,
  split-join _ _ (
    no_slash-NoSlash (b'r' ∷ b'o' ∷ b's' ∷ b'2' ∷ b'_' ∷ b'l' ∷ b'v' ∷ []) refl,
    (
      decimal-NoSlash e.domain_id,
      (
        hex_text-NoSlash (as_bytes e.zid),
        (
          decimal-NoSlash e.nid,
          (
            decimal-NoSlash e.entity_id,
            (
              as_str-NoSlash e.entity_type,
              (
                absolute-NoSlash e.enclave,
                (
                  absolute-NoSlash e.namespace,
                  (
                    relative-NoSlash e.node_name,
                    (
                      absolute-NoSlash e.topic_name,
                      (
                        relative-NoSlash e.type_name,
                        (relative-NoSlash e.type_hash, (qos_text-NoSlash e.qos, tt)),
                      ),
                    ),
                  ),
                ),
              ),
            ),
          ),
        ),
      ),
    ),
  ),
)
