-- ===== src/Sdk/World.antt =====
-- A node and what it refers to, for the calls of src/sdk/node.rs that move messages.
use zenoh_ros2_nostd.Common.{ℕ, Outcome, map_err}
use zenoh_ros2_nostd.Error.{TransportError}
use zenoh_ros2_nostd.Error.Top.{Error, transport}
use zenoh_ros2_nostd.Transport.Link.{Io}
use zenoh_ros2_nostd.Ros2.Publisher.{Publisher}
use zenoh_ros2_nostd.Sdk.Statics.{Store, update}
use zenoh_ros2_nostd.Sdk.Node.{Node}
use zenoh_ros2_nostd.Sdk.Routing.{Inbox}

-- `fired` counts the calls of `on_timer`.
pub record World (L P S : Type 0) : Type 0 where
  pub node : Node L
  pub publishers : Store (Publisher P)
  pub inbox : Inbox S
  pub fired : ℕ

module _ {L P S : Type 0} where
  abbrev pub with_node : Node L → World L P S → World L P S
  with_node n w = record w { node = n }

  abbrev pub with_link : L → World L P S → World L P S
  with_link l w = with_node (record w.node { link = l }) w

  abbrev pub with_publisher : ℕ → Publisher P → World L P S → World L P S
  with_publisher address p w = record w { publishers = update w.publishers address p }

  -- A call of the node alone.
  abbrev pub on_node : {A : Type 0} → Io (Node L) Error A → Io (World L P S) Error A
  on_node m w = ((m w.node).0, with_node (m w.node).1 w)

  abbrev pub on_wire : {A : Type 0} → Io L TransportError A → Io (World L P S) Error A
  on_wire m w = (map_err transport (m w.node.link).0, with_link (m w.node.link).1 w)

  -- A call that changes the queues of the subscriptions alone.
  abbrev pub on_inbox :
      {A : Type 0} → (Inbox S → Outcome Error A × Inbox S) → Io (World L P S) Error A
  on_inbox m w = ((m w.inbox).0, record w { inbox = (m w.inbox).1 })
