-- ===== src/Tests/Nodes.antt =====
-- Nodes over a link and channels in memory.
use zenoh_ros2_nostd.Common.{
  ℕ, ◌+◌, ◌≤◌, ◌<◌, ◌≡◌, ◌≢◌, refl, List, [], ◌∷◌, ◌++◌, All, true, false, replicate, arith, err,
  panic,
}
use zenoh_ros2_nostd.Error.{connection_closed}
use zenoh_ros2_nostd.Error.Top.{Error, transport}
use zenoh_ros2_nostd.Transport.Vbyte.Encode.{groups}
use zenoh_ros2_nostd.Transport.Codec.Service.Image.{response_image}
use zenoh_ros2_nostd.Transport.Fragment.{new}
use zenoh_ros2_nostd.Ros2.Locality.{any}
use zenoh_ros2_nostd.Ros2.Text.{push_str, write_u32, digits_loop, push_digits}
use zenoh_ros2_nostd.Ros2.Keyexpr.{to_key_expr, strip_slash}
use zenoh_ros2_nostd.Ros2.Publisher.{CdrPayload}
use zenoh_ros2_nostd.Ros2.Subscription.{SubMessage, push_raw}
use zenoh_ros2_nostd.Sdk.Node.{
  fresh_node, new_builder, Node, SubscriberEntry, TimerEntry, fragment_buf_size,
}
use zenoh_ros2_nostd.Sdk.Topics.{dispatch_local}
use zenoh_ros2_nostd.Sdk.Topics.Local.{Matches, times, dispatch_local-Matches}
use zenoh_ros2_nostd.Sdk.Timers.{next_deadline}
use zenoh_ros2_nostd.Sdk.Timers.Deadline.{InTime, due, next_deadline-InTime}
use zenoh_ros2_nostd.Sdk.Register.{create_publisher, create_subscription}
use zenoh_ros2_nostd.Sdk.Register.Reachable.{built, published, subscribed, Reachable-IsNode}
use zenoh_ros2_nostd.Transport.Protocol.{from_name}
use zenoh_ros2_nostd.Transport.Handshake.{HandshakeResult}
use zenoh_ros2_nostd.Sdk.Register.Keeps.{IsNode}
use zenoh_ros2_nostd.Sdk.Routing.{Inbox, dispatch_frame}
use zenoh_ros2_nostd.Sdk.Routing.Delivery.{scoped_image}
use zenoh_ros2_nostd.Sdk.Routing.Answers.{closes, dispatch_frame-closes}
use zenoh_ros2_nostd.Sdk.World.{World}
use zenoh_ros2_nostd.Tests.Sessions.{parts}
use zenoh_ros2_nostd.Transport.Codec.Header.RoundTrip.{frame_header_image}
use zenoh_ros2_nostd.Transport.Vbyte.Encode.{vbyte}
use zenoh_ros2_nostd.Sdk.Drain.{drain_publisher}
use zenoh_ros2_nostd.Sdk.Drain.Sent.{AllSent, drain_publisher-AllSent}
use zenoh_ros2_nostd.Sdk.Spin.{spin, reads}
use zenoh_ros2_nostd.Sdk.Spin.Quiet.{spin-quiet}
use zenoh_ros2_nostd.Tests.MemoryLink.{Memory, memory_link, memory-Promises, memory-IsWritable}
use zenoh_ros2_nostd.Tests.MemoryChannel.{Held, memory_channel, memory-KeepsOrder}
use zenoh_ros2_nostd.Tests.Messages.{our_id}
use zenoh_ros2_nostd.Tests.Queues.{chatter, chatter_pub, subscription}

abbrev entry : ℕ → SubscriberEntry
entry key_id = record { key_id = key_id; locality = any; topic = chatter; dispatch = 3 }

abbrev listener : List ℕ → Node Memory
listener input = record {
  node_name = b'n' ∷ [];
  namespace = [];
  domain_id = 0;
  link = ([], input);
  sn = 7;
  key_id_gen = 1;
  entity_id_gen = 1;
  request_id_gen = 1;
  gid = our_id;
  lease_ms = 10_000;
  our_lease_ms = 10_000;
  publishers = [];
  subscribers = [];
  timers = [];
}

abbrev inbox : Inbox (Held SubMessage)
inbox = record { store = λ i. subscription; assembler = new fragment_buf_size; told = [] }

abbrev world : List ℕ → World Memory (Held CdrPayload) (Held SubMessage)
world input = record {
  node = listener input;
  publishers = λ i. chatter_pub;
  inbox = inbox;
  fired = 0;
}

dispatch_local-Matches_example :
    (n : ℕ) × Matches chatter 3 (entry 1 ∷ entry 2 ∷ []) n
    × (dispatch_local
          (memory_channel SubMessage)
          (entry 1 ∷ entry 2 ∷ [])
          chatter
          (5 ∷ [])
          inbox.store
          3
        ≡ times n (push_raw (memory_channel SubMessage) (5 ∷ [])) (inbox.store 3))
dispatch_local-Matches_example =
    dispatch_local-Matches (memory_channel SubMessage) (entry 1 ∷ entry 2 ∷ []) chatter (5 ∷ [])
      inbox.store 3

abbrev incoming : List ℕ
incoming = frame_header_image 300 false ++ (scoped_image 2 (5 ∷ 6 ∷ []) ++ scoped_image 1 (7 ∷ []))

-- A Close; and a Push whose suffix announces 2 ^ 32 - 1 bytes.
dispatch_frame-closes_example :
    let (answer, inbox') =
      dispatch_frame (memory_channel SubMessage) (entry 1 ∷ []) (0x03 ∷ 0 ∷ []) inbox in
    (closes (0x03 ∷ 0 ∷ []) ≡ true
      → (answer ≡ err (transport connection_closed)) × (inbox' ≡ inbox))
    × (closes (0x03 ∷ 0 ∷ []) ≡ false → (e : Error) → answer ≢ err e)
    × (dispatch_frame
          (memory_channel SubMessage)
          (entry 1 ∷ [])
          (frame_header_image 0 true ++ (0x3d ∷ (vbyte 0 ++ (vbyte 0xffffffff ++ []))))
          inbox
        ≡ (panic, inbox))
unfolding groups
dispatch_frame-closes_example =
    dispatch_frame-closes (memory_channel SubMessage) (entry 1 ∷ []) (0x03 ∷ 0 ∷ []) 0 0 0xffffffff
      true [] inbox (omega arith) (omega arith) (omega arith) (omega arith)

abbrev clocks : List TimerEntry
clocks = record { period = 20; next_fire = 130 } ∷ record { period = 50; next_fire = 110 } ∷ []

next_deadline-InTime_example :
    let wait = next_deadline 100 40 clocks in
    (wait ≤ 40) × All (InTime 100 wait) clocks × (wait < 40 → 0 < due (100 + wait) clocks)
next_deadline-InTime_example = next_deadline-InTime 100 40 clocks

abbrev answered : HandshakeResult
answered = record {
  router_zid = from_name (b'r' ∷ []);
  lease_ms = 10_000;
  our_lease_ms = 10_000;
  initial_sn = 0;
  router_initial_sn = 0;
}

abbrev talker : Node Memory
talker = fresh_node (new_builder (b't' ∷ [])) answered (listener []).link

abbrev announced : Node Memory
announced = (create_publisher memory_link chatter_pub 1 talker).1

Reachable-IsNode_example :
    IsNode (create_subscription memory_link chatter subscription 3 announced).1
Reachable-IsNode_example =
    Reachable-IsNode memory_link
      (create_subscription memory_link chatter subscription 3 announced).1
      (subscribed chatter subscription 3 announced (
        published chatter_pub 1 talker
          (built (new_builder (b't' ∷ [])) answered (listener []).link)))

spin-quiet_example :
    (spin memory_link
      (memory_channel CdrPayload)
      (memory_channel SubMessage)
      9
      (replicate 2 reads)
      (world (1 ∷ 0 ∷ 4 ∷ 1 ∷ 0 ∷ 4 ∷ []))).1.node.link.0
    ≡ []
spin-quiet_example =
    spin-quiet memory_link memory-Promises (memory_channel CdrPayload) (memory_channel SubMessage) 9
      2 (world (1 ∷ 0 ∷ 4 ∷ 1 ∷ 0 ∷ 4 ∷ [])) refl

abbrev answer_frame : List ℕ
answer_frame =
    frame_header_image 3 true ++ (response_image parts 5 2 [] (0 ∷ 1 ∷ 0 ∷ 0 ∷ 9 ∷ []) ++ (7 ∷ []))

abbrev chatter_key : List ℕ
chatter_key = b'0' ∷ b'/' ∷ b'r' ∷ b't' ∷ b'/' ∷ b's' ∷ b'/' ∷ b'h' ∷ []

drain_publisher-AllSent_example :
    AllSent memory_link memory-Promises memory-IsWritable
      (memory_channel CdrPayload)
      memory-KeepsOrder
      (memory_channel SubMessage)
      0
      chatter_key
      (world [])
      (drain_publisher memory_link
        (memory_channel CdrPayload)
        (memory_channel SubMessage)
        3
        0
        (world []))
unfolding to_key_expr strip_slash push_str write_u32 digits_loop push_digits
drain_publisher-AllSent_example =
    drain_publisher-AllSent memory_link memory-Promises memory-IsWritable
      (memory_channel CdrPayload) memory-KeepsOrder (memory_channel SubMessage) 0 3 chatter_key
      (world []) refl refl (omega arith) (omega arith) (omega arith)
