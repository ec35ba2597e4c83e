-- ===== src/Sdk/Topics.antt =====
-- src/sdk/node.rs: `topics_match`, and the delivery of a message within the node.
pub mod Local
use zenoh_ros2_nostd.Common.{ℕ, List, [], ◌∷◌, Bool, true, false, not, ◌==◌, ◌&&◌, if◌then◌else◌}
use zenoh_ros2_nostd.Ros2.Channel.{Channel}
use zenoh_ros2_nostd.Ros2.Locality.{is_remote, is_session_local}
use zenoh_ros2_nostd.Ros2.Keyexpr.{TopicKeyExpr}
use zenoh_ros2_nostd.Ros2.Subscription.{SubMessage, Subscription, push_raw}
use zenoh_ros2_nostd.Sdk.Statics.{Store, update}
use zenoh_ros2_nostd.Sdk.Node.{SubscriberEntry}

-- `trim_start_matches('/')`
unfoldable pub trim_slashes : List ℕ → List ℕ
trim_slashes [] = []
trim_slashes (c ∷ rest) = let trimmed = trim_slashes rest in if c == b'/' then trimmed else c ∷ rest

-- `==` on strings.
unfoldable pub same_bytes : List ℕ → List ℕ → Bool
same_bytes [] [] = true
same_bytes [] (y ∷ ys) = false
same_bytes (x ∷ xs) [] = false
same_bytes (x ∷ xs) (y ∷ ys) = x == y && same_bytes xs ys

unfoldable pub topics_match : TopicKeyExpr → TopicKeyExpr → Bool
unfolding trim_slashes same_bytes
topics_match a b =
    if not (a.domain_id == b.domain_id)
    then false
    else same_bytes (trim_slashes a.topic_name) (trim_slashes b.topic_name)

module _ (channel : Channel SubMessage) where
  open channel use {State}

  abbrev pub deliver :
      SubscriberEntry → List ℕ → Store (Subscription State) → Store (Subscription State)
  deliver entry payload store =
      update store entry.dispatch (push_raw channel payload (store entry.dispatch))

  -- Whether a message of the topic that is published within the node is for the entry.
  abbrev pub takes_local : TopicKeyExpr → SubscriberEntry → Bool
  takes_local topic entry =
      if is_remote entry.locality then false else topics_match entry.topic topic

  unfoldable pub dispatch_local :
      List SubscriberEntry
      → TopicKeyExpr
      → List ℕ
      → Store (Subscription State)
      → Store (Subscription State)
  unfolding topics_match
  dispatch_local [] topic payload store = store
  dispatch_local (entry ∷ entries) topic payload store =
      dispatch_local entries topic payload
        (if takes_local topic entry then deliver entry payload store else store)
