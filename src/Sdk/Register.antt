-- ===== src/Sdk/Register.antt =====
-- src/sdk/node.rs: publishers and subscriptions are made known to a node and to the router.
pub mod Keeps
pub mod Built
pub mod Invariant
pub mod Reachable
use zenoh_ros2_nostd.Common.{ℕ, List, if◌then◌else◌, ok}
use zenoh_ros2_nostd.Error.Top.{Error}
use zenoh_ros2_nostd.Transport.Link.{Link, Io, ◌>>=◌, ◌>>◌, pure}
use zenoh_ros2_nostd.Ros2.Locality.{is_session_local}
use zenoh_ros2_nostd.Ros2.Keyexpr.{TopicKeyExpr, to_key_expr}
use zenoh_ros2_nostd.Ros2.Liveliness.{publisher, subscriber}
use zenoh_ros2_nostd.Ros2.Publisher.{Publisher}
use zenoh_ros2_nostd.Ros2.Subscription.{Subscription}
use zenoh_ros2_nostd.Sdk.Statics.{push_within}
use zenoh_ros2_nostd.Sdk.Node.{
  Node, SubscriberEntry, max_pubs, max_subs, text_of, declare_key, declare_subscriber,
  declare_liveliness,
}

-- `let _ = self.publishers.push(drain)`
abbrev pub add_publisher : {L : Type 0} → ℕ → Io (Node L) Error (Unit {0})
add_publisher address n =
    (ok tt, record n { publishers = push_within max_pubs n.publishers address })

-- `let _ = self.subscribers.push(SubscriberEntry { .. })`
abbrev pub add_subscriber : {L : Type 0} → SubscriberEntry → Io (Node L) Error (Unit {0})
add_subscriber entry n =
    (ok tt, record n { subscribers = push_within max_subs n.subscribers entry })

module _ (link : Link) where
  open link use {State}

  -- `address` is where the `static` publisher is.
  unfoldable pub create_publisher :
      {P : Type 0} → Publisher P → ℕ → Io (Node State) Error (Unit {0})
  create_publisher p address =
      if is_session_local p.locality
      then add_publisher address
      else (do declare_liveliness link publisher p.topic; add_publisher address)

  -- What the node keeps of a subscription with the number of its key.
  abbrev pub entry_of : {S : Type 0} → TopicKeyExpr → Subscription S → ℕ → ℕ → SubscriberEntry
  entry_of topic s address key_id = record {
    key_id = key_id;
    locality = s.locality;
    topic = topic;
    dispatch = address;
  }

  unfoldable pub create_subscription :
      {S : Type 0} → TopicKeyExpr → Subscription S → ℕ → Io (Node State) Error (Unit {0})
  create_subscription topic s address =
      if is_session_local s.locality then add_subscriber (entry_of topic s address 0) else (do
        ke ← text_of (to_key_expr topic)
        key_id ← declare_key link ke
        declare_subscriber link key_id
        declare_liveliness link subscriber topic
        add_subscriber (entry_of topic s address key_id))
