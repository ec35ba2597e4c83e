-- ===== src/Sdk/Node.antt =====
-- src/sdk/node.rs: the state of a node, how it is built, and how it sends.
use zenoh_ros2_nostd.Common.{
  ℕ, ◌+◌, ◌%◌, ◌++◌, List, [], true, Option, none, some, replicate, ltb, leb, if◌then◌else◌,
  Outcome, ok, err, panic, map_err,
}
use zenoh_ros2_nostd.Error.{TransportError, Wire}
use zenoh_ros2_nostd.Error.Top.{Error, transport, invalid_argument}
use zenoh_ros2_nostd.Transport.Link.{Link, Io, ◌>>=◌, ◌>>◌, pure}
use zenoh_ros2_nostd.Transport.Frame.{write_frame}
use zenoh_ros2_nostd.Transport.Writer.{Encoder}
use zenoh_ros2_nostd.Transport.Vbyte.{u64_size}
use zenoh_ros2_nostd.Transport.Protocol.{ZenohId, from_name}
use zenoh_ros2_nostd.Transport.Codec.Header.{encode_frame_header, encode_keepalive}
use zenoh_ros2_nostd.Transport.Codec.Declare.{
  encode_declare_keyexpr, encode_declare_subscriber_mapped, encode_declare_token,
}
use zenoh_ros2_nostd.Transport.Codec.Service.{u32_size}
use zenoh_ros2_nostd.Transport.Handshake.{client_handshake, HandshakeResult}
use zenoh_ros2_nostd.Session.{u16_size}
use zenoh_ros2_nostd.Ros2.Text.{Text}
use zenoh_ros2_nostd.Ros2.Locality.{Locality}
use zenoh_ros2_nostd.Ros2.Keyexpr.{TopicKeyExpr}
use zenoh_ros2_nostd.Ros2.Qos.{default_qos}
use zenoh_ros2_nostd.Ros2.Liveliness.{Entity, EntityType, build_liveliness_token}

abbrev pub tx_frame_buf : ℕ
tx_frame_buf = 1_024

abbrev pub cdr_drain_buf : ℕ
cdr_drain_buf = 512

abbrev pub rx_buf_size : ℕ
rx_buf_size = 4_096

abbrev pub min_lease_ms : ℕ
min_lease_ms = 2_000

abbrev pub max_pubs : ℕ
max_pubs = 8

abbrev pub max_subs : ℕ
max_subs = 4

abbrev pub max_timers : ℕ
max_timers = 4

abbrev pub fragment_buf_size : ℕ
fragment_buf_size = 16_384

-- Times are in ticks, a u64 that does not wrap around in the life of a device.
pub record TimerEntry : Type 0 where
  pub period : ℕ
  pub next_fire : ℕ

-- `dispatch` is the address of the subscription.
pub record SubscriberEntry : Type 0 where
  pub key_id : ℕ
  pub locality : Locality
  pub topic : TopicKeyExpr
  pub dispatch : ℕ

pub record NodeBuilder : Type 0 where
  pub node_name : List ℕ
  pub namespace : List ℕ
  pub domain_id : ℕ
  pub zid : Option ZenohId

-- `sn` is a u64, `key_id_gen` a u16, the other counters are u32. `publishers` holds addresses.
pub record Node (L : Type 0) : Type 0 where
  pub node_name : List ℕ
  pub namespace : List ℕ
  pub domain_id : ℕ
  pub link : L
  pub sn : ℕ
  pub key_id_gen : ℕ
  pub entity_id_gen : ℕ
  pub request_id_gen : ℕ
  pub gid : ZenohId
  pub lease_ms : ℕ
  pub our_lease_ms : ℕ
  pub publishers : List ℕ
  pub subscribers : List SubscriberEntry
  pub timers : List TimerEntry

unfoldable pub new_builder : List ℕ → NodeBuilder
new_builder name = record { node_name = name; namespace = []; domain_id = 0; zid = none }

unfoldable pub with_name : List ℕ → NodeBuilder → NodeBuilder
with_name name b = record b { node_name = name }

unfoldable pub with_namespace : List ℕ → NodeBuilder → NodeBuilder
with_namespace ns b = record b { namespace = ns }

unfoldable pub with_domain_id : ℕ → NodeBuilder → NodeBuilder
with_domain_id id b = record b { domain_id = id }

unfoldable pub with_zid : ZenohId → NodeBuilder → NodeBuilder
with_zid zid b = record b { zid = some zid }

-- `self.zid.unwrap_or_else(|| ZenohId::from_name(self.node_name))`
abbrev pub zid_of : Option ZenohId → List ℕ → ZenohId
zid_of (some zid) name = zid
zid_of none name = from_name name

abbrev pub fresh_node : {L : Type 0} → NodeBuilder → HandshakeResult → L → Node L
fresh_node b hs l = record {
  node_name = b.node_name;
  namespace = b.namespace;
  domain_id = b.domain_id;
  link = l;
  sn = 0;
  key_id_gen = 1;
  entity_id_gen = 1;
  request_id_gen = 1;
  gid = zid_of b.zid b.node_name;
  lease_ms = (if ltb hs.lease_ms min_lease_ms then min_lease_ms else hs.lease_ms);
  our_lease_ms = hs.our_lease_ms;
  publishers = [];
  subscribers = [];
  timers = [];
}

abbrev pub node_of : {L : Type 0} → NodeBuilder → Wire HandshakeResult × L → Outcome Error (Node L)
node_of b (ok hs, l) = ok (fresh_node b hs l)
node_of b (err e, l) = err (transport e)
node_of b (panic, l) = panic

-- `map_err(Error::Transport)?` on an encoder's result.
abbrev pub written_by : {L : Type 0} → Wire (List ℕ × List ℕ) → Io (Node L) Error (List ℕ × List ℕ)
written_by r = pure (map_err transport r)

-- `map_err(|_| Error::InvalidArgument)?`
abbrev pub text_of : {S : Type 0} → Text → Io S Error (List ℕ)
text_of t = pure (map_err (λ u. invalid_argument) t)

abbrev pub get_sn : {L : Type 0} → Io (Node L) Error ℕ
get_sn n = (ok n.sn, n)

-- `self.sn = self.sn.wrapping_add(1)`
abbrev pub advance_sn : {L : Type 0} → Io (Node L) Error (Unit {0})
advance_sn n = (ok tt, record n { sn = (n.sn + 1) % u64_size })

abbrev pub on_transport : {L A : Type 0} → Io L TransportError A → Io (Node L) Error A
on_transport m n = (map_err transport (m n.link).0, record n { link = (m n.link).1 })

abbrev pub take_key : {L : Type 0} → Io (Node L) Error ℕ
take_key n = (ok n.key_id_gen, record n { key_id_gen = (n.key_id_gen + 1) % u16_size })

-- `self.entity_id_gen += 1`, which may overflow.
abbrev pub take_entity : {L : Type 0} → Io (Node L) Error ℕ
take_entity n =
    if leb u32_size (n.entity_id_gen + 1)
    then (panic, n)
    else (ok n.entity_id_gen, record n { entity_id_gen = n.entity_id_gen + 1 })

abbrev pub entity : {L : Type 0} → Node L → EntityType → TopicKeyExpr → ℕ → Entity
entity n entity_type topic entity_id = record {
  domain_id = n.domain_id;
  zid = n.gid;
  nid = 0;
  entity_id = entity_id;
  entity_type = entity_type;
  enclave = [];
  namespace = n.namespace;
  node_name = n.node_name;
  topic_name = topic.topic_name;
  type_name = topic.type_name;
  type_hash = topic.type_hash;
  qos = default_qos;
}

module _ (link : Link) where
  open link use {State}

  unfoldable pub build : NodeBuilder → State → Outcome Error (Node State)
  build b l = node_of b (client_handshake link (zid_of b.zid b.node_name) (replicate 512 0) 4_096 l)

  -- The part that the three declarations and `call_service` share: the header of a frame in a new
  -- buffer, the next number, the message behind the header, and one frame on the link.
  unfoldable pub send_framed : ℕ → Encoder → Io (Node State) Error (Unit {0})
  send_framed size message = do
    sn ← get_sn
    (header, room) ← written_by (encode_frame_header sn true (replicate size 0))
    advance_sn
    (body, rest) ← written_by (message room)
    on_transport (write_frame link (header ++ body))

  unfoldable pub declare_key : List ℕ → Io (Node State) Error ℕ
  unfolding send_framed
  declare_key key_expr = do
    key_id ← take_key
    send_framed 512 (encode_declare_keyexpr key_id key_expr)
    pure (ok key_id)

  unfoldable pub declare_subscriber : ℕ → Io (Node State) Error (Unit {0})
  unfolding send_framed
  declare_subscriber key_id = send_framed 128 (encode_declare_subscriber_mapped key_id key_id)

  unfoldable pub declare_liveliness : EntityType → TopicKeyExpr → Io (Node State) Error (Unit {0})
  unfolding send_framed
  declare_liveliness entity_type topic n =
      (do
        entity_id ← take_entity
        token ← text_of (build_liveliness_token (entity n entity_type topic entity_id))
        send_framed 768 (encode_declare_token entity_id token))
        n

  unfoldable pub send_keepalive : Io (Node State) Error (Unit {0})
  send_keepalive = do
    (bytes, rest) ← written_by (encode_keepalive (replicate 8 0))
    on_transport (write_frame link bytes)
