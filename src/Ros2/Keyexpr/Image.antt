-- ===== src/Ros2/Keyexpr/Image.antt =====
-- The key expression of a topic in one piece.
use zenoh_ros2_nostd.Common.{
  ℕ, ◌^◌, ◌<◌, ◌≡◌, ◌≢◌, refl, ne→==, ap, ◌∙◌, List, [], ◌∷◌, ◌++◌, length, ltb, if◌then◌else◌, ok,
  err,
}
use zenoh_ros2_nostd.Ros2.Text.{Text}
use zenoh_ros2_nostd.Ros2.Text.Decimal.{decimal, write_u32-push_str}
use zenoh_ros2_nostd.Ros2.Text.Push.{push_str->>=, push_str-ok, push_str-nil}
use zenoh_ros2_nostd.Ros2.Keyexpr.{
  max_key_expr_len, strip_slash, TopicKeyExpr, build_topic_key_expr, to_key_expr,
}

abbrev slash : List ℕ
slash = b'/' ∷ []

-- Domain, name, type and hash, with slashes between them.
abbrev pub key_image : ℕ → List ℕ → List ℕ → List ℕ → List ℕ
key_image domain_id name type_name type_hash =
    decimal domain_id
    ++ ((b'/' ∷ []) ++ (name ++ ((b'/' ∷ []) ++ (type_name ++ ((b'/' ∷ []) ++ type_hash)))))

-- That text, if it has at most 256 bytes, and an error otherwise.
abbrev pub fitting : List ℕ → Text
fitting key = if ltb 256 (length key) then err tt else ok key

abbrev pub Unslashed : List ℕ → Type 0
Unslashed [] = Unit {0}
Unslashed (c ∷ name) = c ≢ b'/'

strip_slash-Unslashed : (name : List ℕ) → Unslashed name → strip_slash name ≡ name
unfolding strip_slash
strip_slash-Unslashed [] h = refl
strip_slash-Unslashed (c ∷ name) h = rw (ne→== c b'/' h) refl

strip_slash_front : (name : List ℕ) → strip_slash (b'/' ∷ name) ≡ name
unfolding strip_slash
strip_slash_front name = refl

to_key_expr-fitting :
    (t : TopicKeyExpr)
    → t.domain_id < 2 ^ 32
    → to_key_expr t
      ≡ fitting (key_image t.domain_id (strip_slash t.topic_name) t.type_name t.type_hash)
unfolding to_key_expr
to_key_expr-fitting t h = rw (write_u32-push_str max_key_expr_len t.domain_id [] h) (
    push_str->>= max_key_expr_len (decimal t.domain_id) _ [] _ (λ s.
      push_str->>= max_key_expr_len slash _ s _ (λ s.
        push_str->>= max_key_expr_len (strip_slash t.topic_name) _ s _ (λ s.
          push_str->>= max_key_expr_len slash _ s _ (λ s.
            push_str->>= max_key_expr_len t.type_name _ s _ (λ s.
              push_str->>= max_key_expr_len slash _ s _
                (λ s. push_str-ok max_key_expr_len t.type_hash s))))))
    ∙ push_str-nil max_key_expr_len
        (key_image t.domain_id (strip_slash t.topic_name) t.type_name t.type_hash))

same_text :
    (t : TopicKeyExpr)
    → build_topic_key_expr t.domain_id t.topic_name t.type_name t.type_hash ≡ to_key_expr t
unfolding build_topic_key_expr to_key_expr
same_text t = refl

-- The key expression of a topic is its domain in decimal, its name, its type and its hash, with
-- slashes between them, if that has at most 256 bytes, and an error otherwise, where the name has no
-- slash in front. Of a name with slashes in front the first one is dropped, and only that one. Both
-- functions of the source build it so.
pub build_topic_key_expr-key_image :
    (domain_id : ℕ) (name behind type_name type_hash : List ℕ)
    → domain_id < 2 ^ 32
    → Unslashed name
    → let key = λ (n : List ℕ). fitting (key_image domain_id n type_name type_hash) in
      let topic : List ℕ → TopicKeyExpr = λ n. record {
        domain_id = domain_id;
        topic_name = n;
        type_name = type_name;
        type_hash = type_hash;
      } in
      (build_topic_key_expr domain_id name type_name type_hash ≡ key name)
      × (to_key_expr (topic name) ≡ key name)
      × (build_topic_key_expr domain_id (b'/' ∷ behind) type_name type_hash ≡ key behind)
      × (to_key_expr (topic (b'/' ∷ behind)) ≡ key behind)
build_topic_key_expr-key_image domain_id name behind type_name type_hash h u =
    let topic : List ℕ → TopicKeyExpr = λ n. record {
      domain_id = domain_id;
      topic_name = n;
      type_name = type_name;
      type_hash = type_hash;
    } in
    let key = λ (n : List ℕ). fitting (key_image domain_id n type_name type_hash) in
    let slashed =
      to_key_expr-fitting (topic (b'/' ∷ behind)) h ∙ ap key (strip_slash_front behind) in
    let bare = to_key_expr-fitting (topic name) h ∙ ap key (strip_slash-Unslashed name u) in
    (same_text (topic name) ∙ bare, bare, same_text (topic (b'/' ∷ behind)) ∙ slashed, slashed)
