-- ===== src/Tests/Names.antt =====
-- Names, profiles, buffers and waits.
use zenoh_ros2_nostd.Common.{
  ℕ, ◌+◌, ◌*◌, ◌^◌, ◌≤◌, ◌<◌, ◌≡◌, refl, min, List, [], ◌∷◌, true, none, some, length, arith, ok,
  err,
}
use zenoh_ros2_nostd.Session.Reconnect.{ReconnectPolicy, policy, reset_policy, should_retry}
use zenoh_ros2_nostd.Session.Reconnect.Delays.{advanced, wait_and_advance-delays}
use zenoh_ros2_nostd.Pool.{BufferPool, acquire, release, available}
use zenoh_ros2_nostd.Pool.Count.{IsValid, acquire-available, release-available}
use zenoh_ros2_nostd.Ros2.Keyexpr.{TopicKeyExpr, build_topic_key_expr, to_key_expr}
use zenoh_ros2_nostd.Ros2.Keyexpr.Image.{key_image, fitting, build_topic_key_expr-key_image}
use zenoh_ros2_nostd.Ros2.Qos.{Qos, is_compatible, best_effort, reliable, volatile, keep_last}
use zenoh_ros2_nostd.Ros2.Qos.Compatible.{Serves, is_compatible-Serves}

wait_and_advance-delays_example :
    (p : ReconnectPolicy) × (advanced 3 (policy 1_000 30_000) ≡ ok p)
    × (p.current_delay_ms ≡ min (1_000 * 2 ^ 3) 30_000)
    × (p.attempt_count ≡ 3)
    × (should_retry p ≡ true)
    × (reset_policy p ≡ policy 1_000 30_000)
wait_and_advance-delays_example =
    wait_and_advance-delays 1_000 30_000 3 (omega arith) (omega arith) (omega arith)

abbrev half : BufferPool
half = none ∷ some [] ∷ []

acquire-available_example :
    let (answer, after) = acquire half in
    IsValid after
    × (length after ≡ length half)
    × ((available half ≡ 0) → (answer ≡ none) × (after ≡ half))
    × ((1 ≤ available half) → (answer ≡ some []) × (available after + 1 ≡ available half))
acquire-available_example = acquire-available half (tt, (refl, tt))

release-available_example :
    let (answer, after) = release (1 ∷ []) half in
    IsValid after
    × (length after ≡ length half)
    × ((available half ≡ length half) → (answer ≡ err []) × (after ≡ half))
    × ((available half < length half) → (answer ≡ ok tt) × (available after ≡ available half + 1))
release-available_example = release-available (1 ∷ []) half (tt, (refl, tt))

abbrev letter : List ℕ
letter = b'a' ∷ []

abbrev chatter : TopicKeyExpr
chatter = record {
  domain_id = 42;
  topic_name = b'/' ∷ b'c' ∷ [];
  type_name = b't' ∷ [];
  type_hash = b'h' ∷ [];
}

build_topic_key_expr-key_image_example :
    (build_topic_key_expr 42 (b'd' ∷ []) (b't' ∷ []) (b'h' ∷ [])
      ≡ fitting (key_image 42 (b'd' ∷ []) (b't' ∷ []) (b'h' ∷ [])))
    × (to_key_expr (record chatter { topic_name = b'd' ∷ [] })
        ≡ fitting (key_image 42 (b'd' ∷ []) (b't' ∷ []) (b'h' ∷ [])))
    × (build_topic_key_expr 42 (b'/' ∷ b'c' ∷ []) (b't' ∷ []) (b'h' ∷ [])
        ≡ fitting (key_image 42 (b'c' ∷ []) (b't' ∷ []) (b'h' ∷ [])))
    × (to_key_expr chatter ≡ fitting (key_image 42 (b'c' ∷ []) (b't' ∷ []) (b'h' ∷ [])))
build_topic_key_expr-key_image_example =
    build_topic_key_expr-key_image 42 (b'd' ∷ []) (b'c' ∷ []) (b't' ∷ []) (b'h' ∷ []) (omega arith)
      (λ e. cc)

abbrev sensor : Qos
sensor = record { reliability = best_effort; durability = volatile; history = keep_last 5 }

abbrev standard : Qos
standard = record { reliability = reliable; durability = volatile; history = keep_last 10 }

is_compatible-Serves_example :
    (is_compatible standard sensor ≡ true → Serves standard sensor)
    × (Serves standard sensor → is_compatible standard sensor ≡ true)
is_compatible-Serves_example = is_compatible-Serves standard sensor
