-- ===== src/Tests/Queues.antt =====
-- Publishers and subscriptions over a channel in memory.
use zenoh_ros2_nostd.Common.{
  ◌≡◌, refl, [], ◌∷◌, none, some, length, ltb, if◌then◌else◌, arith, ok, err,
}
use zenoh_ros2_nostd.Ros2.Locality.{any}
use zenoh_ros2_nostd.Ros2.Keyexpr.{TopicKeyExpr}
use zenoh_ros2_nostd.Ros2.Qos.{default_qos, depth}
use zenoh_ros2_nostd.Ros2.Liveliness.{Entity, publisher, build_liveliness_token}
use zenoh_ros2_nostd.Ros2.Liveliness.Parts.{join, split}
use zenoh_ros2_nostd.Ros2.Liveliness.Token.{parts_of, build_liveliness_token-parts_of}
use zenoh_ros2_nostd.Ros2.Publisher.{CdrPayload, Publisher, try_drain_into, stash_retry}
use zenoh_ros2_nostd.Ros2.Publisher.Pending.{pending, stash_retry-try_drain_into}
use zenoh_ros2_nostd.Ros2.Subscription.{SubMessage, Subscription, clear}
use zenoh_ros2_nostd.Ros2.Subscription.Queue.{queued, clear-empty}
use zenoh_ros2_nostd.Tests.MemoryChannel.{Held, memory_channel, memory-KeepsOrder}
use zenoh_ros2_nostd.Tests.Messages.{our_id}

abbrev pub chatter : TopicKeyExpr
chatter = record {
  domain_id = 0;
  topic_name = b'/' ∷ b'r' ∷ b't' ∷ [];
  type_name = b's' ∷ [];
  type_hash = b'h' ∷ [];
}

abbrev pub subscription : Subscription (Held SubMessage)
subscription = record {
  inner = record {
    msg_size = 64;
    channel = record {
      capacity = 2;
      contents = record { payload = 1 ∷ 2 ∷ [] } ∷ record { payload = 3 ∷ [] } ∷ [];
    };
  };
  locality = any;
}

abbrev pub chatter_pub : Publisher (Held CdrPayload)
chatter_pub = record {
  topic = chatter;
  locality = any;
  cdr_cap = 64;
  channel = record {
    capacity = 2;
    contents =
        record { data_bytes = 0 ∷ 1 ∷ 0 ∷ 0 ∷ 7 ∷ []; seq_num = 4; timestamp_ns = 9 }
        ∷ record { data_bytes = 0 ∷ 1 ∷ 0 ∷ 0 ∷ 8 ∷ []; seq_num = 5; timestamp_ns = 10 }
        ∷ [];
  };
  retry_slot = none;
  seq_num = 6;
}

clear-empty_example :
    (s : Subscription (Held SubMessage)) × (clear (memory_channel SubMessage) 3 subscription
      ≡ some s)
    × (queued (memory_channel SubMessage) memory-KeepsOrder s ≡ [])
    × (s.inner.msg_size ≡ 64)
    × (s.locality ≡ any)
clear-empty_example =
    clear-empty (memory_channel SubMessage) memory-KeepsOrder 3 subscription (omega arith)

stash_retry-try_drain_into_example :
    let (answer, p') = try_drain_into (memory_channel CdrPayload) 512 chatter_pub in
    (answer ≡ some (0 ∷ 1 ∷ 0 ∷ 0 ∷ 7 ∷ [], 4, 9))
    × (pending
          (memory_channel CdrPayload)
          memory-KeepsOrder
          (stash_retry (0 ∷ 1 ∷ 0 ∷ 0 ∷ 7 ∷ []) 4 9 p')
        ≡ pending (memory_channel CdrPayload) memory-KeepsOrder chatter_pub)
stash_retry-try_drain_into_example =
    stash_retry-try_drain_into (memory_channel CdrPayload) memory-KeepsOrder 512 chatter_pub
      (0 ∷ 1 ∷ 0 ∷ 0 ∷ 7 ∷ []) 4 9 ((0 ∷ 1 ∷ 0 ∷ 0 ∷ 8 ∷ [], 5, 10) ∷ []) refl (omega arith)
      (omega arith)

abbrev talker : Entity
talker = record {
  domain_id = 0;
  zid = our_id;
  nid = 0;
  entity_id = 1;
  entity_type = publisher;
  enclave = [];
  namespace = [];
  node_name = b'n' ∷ [];
  topic_name = b'/' ∷ b'r' ∷ b'/' ∷ b't' ∷ [];
  type_name = b's' ∷ [];
  type_hash = b'h' ∷ [];
  qos = default_qos;
}

build_liveliness_token-parts_of_example :
    (build_liveliness_token talker ≡ (
      if ltb 512 (length (b'@' ∷ join (parts_of talker)))
      then err tt
      else ok (b'@' ∷ join (parts_of talker))))
    × (split (join (parts_of talker)) ≡ parts_of talker)
build_liveliness_token-parts_of_example =
    build_liveliness_token-parts_of talker (omega arith) (omega arith) (omega arith)
      (unfold depth in omega arith)
