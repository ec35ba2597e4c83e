-- ===== src/Sdk/Register/Reachable.antt =====
-- The nodes that an application comes to: as the builder makes them, and after any registrations, in
-- any order, whatever each of them ends in.
use zenoh_ros2_nostd.Common.{ℕ}
use zenoh_ros2_nostd.Transport.Link.{Link}
use zenoh_ros2_nostd.Transport.Handshake.{HandshakeResult}
use zenoh_ros2_nostd.Ros2.Keyexpr.{TopicKeyExpr}
use zenoh_ros2_nostd.Ros2.Publisher.{Publisher}
use zenoh_ros2_nostd.Ros2.Subscription.{Subscription}
use zenoh_ros2_nostd.Sdk.Node.{NodeBuilder, Node, fresh_node}
use zenoh_ros2_nostd.Sdk.Timers.{register_timer}
use zenoh_ros2_nostd.Sdk.Register.{create_publisher, create_subscription}
use zenoh_ros2_nostd.Sdk.Register.Keeps.{IsNode, register_timer-IsNode}
use zenoh_ros2_nostd.Sdk.Register.Built.{fresh_node-IsNode}
use zenoh_ros2_nostd.Sdk.Register.Invariant.{create_publisher-IsNode, create_subscription-IsNode}

pub data Reachable (link : Link) : Node link.State → Type 1 where
  built :
      (b : NodeBuilder) (hs : HandshakeResult) (l : link.State) → Reachable link (fresh_node b hs l)
  published :
      {P : Type 0} (p : Publisher P) (address : ℕ) (n : Node link.State)
      → Reachable link n
      → Reachable link (create_publisher link p address n).1
  subscribed :
      {S : Type 0} (topic : TopicKeyExpr) (s : Subscription S) (address : ℕ) (n : Node link.State)
      → Reachable link n
      → Reachable link (create_subscription link topic s address n).1
  timed :
      (now period : ℕ) (n : Node link.State)
      → Reachable link n
      → Reachable link (register_timer now period n).1

-- Every node that comes from the builder by any sequence of registrations, those that fail
-- included, meets the invariant: its counters are within their widths, its lease is at least two
-- seconds, it has at most eight publishers, four subscriptions and four timers, and an entry has a
-- key number of 16 bits, which is 0 for a subscription to local messages.
pub Reachable-IsNode : (link : Link) (n : Node link.State) → Reachable link n → IsNode n
Reachable-IsNode link _ (built b hs l) = fresh_node-IsNode b hs l
Reachable-IsNode link _ (published p address n r) =
    create_publisher-IsNode link p address n (Reachable-IsNode link n r)
Reachable-IsNode link _ (subscribed topic s address n r) =
    create_subscription-IsNode link topic s address n (Reachable-IsNode link n r)
Reachable-IsNode link _ (timed now period n r) =
    register_timer-IsNode now period n (Reachable-IsNode link n r)
