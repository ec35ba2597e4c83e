-- ===== src/Sdk/Register/Built.antt =====
-- The node that `NodeBuilder::build` of src/sdk/node.rs returns.
use mathlib.Core.Path.{subst}
use zenoh_ros2_nostd.Common.{◌≡◌, arith, ok, err, panic}
use zenoh_ros2_nostd.Error.{Wire}
use zenoh_ros2_nostd.Transport.Link.{Link}
use zenoh_ros2_nostd.Transport.Handshake.{HandshakeResult}
use zenoh_ros2_nostd.Sdk.Node.{NodeBuilder, Node, fresh_node, node_of, build}
use zenoh_ros2_nostd.Sdk.Register.Keeps.{IsNode, ok_injective}

pub fresh_node-IsNode :
    {L : Type 0} (b : NodeBuilder) (hs : HandshakeResult) (l : L) → IsNode (fresh_node b hs l)
fresh_node-IsNode b hs l = record {
  sn_width = omega arith;
  key_width = omega arith;
  entity_width = omega arith;
  request_width = omega arith;
  lease_floor = ground arith;
  pubs_within = omega arith;
  subs_within = omega arith;
  timers_within = omega arith;
  entries = tt;
}

node_of-IsNode :
    {L : Type 0} (b : NodeBuilder) (r : Wire HandshakeResult × L) (n : Node L)
    → node_of b r ≡ ok n
    → IsNode n
node_of-IsNode b (ok hs, l) n e = subst IsNode (ok_injective e) (fresh_node-IsNode b hs l)
node_of-IsNode b (err e', l) n e = cc
node_of-IsNode b (panic, l) n e = cc

-- A node that the builder returns meets the invariant, whatever the router answered.
pub build-IsNode :
    (link : Link) (b : NodeBuilder) (l : link.State) (n : Node link.State)
    → build link b l ≡ ok n
    → IsNode n
unfolding build
build-IsNode link b l n e = node_of-IsNode b _ n e
