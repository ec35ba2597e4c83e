-- ===== src/Transport/Handshake.antt =====
-- src/transport/handshake.rs: InitSyn, InitAck, OpenSyn, OpenAck.
pub mod Run
use zenoh_ros2_nostd.Common.{ℕ, List, ◌++◌, Option, none, length, not, ◌==◌, fail_if, ok}
use zenoh_ros2_nostd.Error.{TransportError, version_mismatch}
use zenoh_ros2_nostd.Transport.Link.{Link, Io, ◌>>=◌, ◌>>◌, pure}
use zenoh_ros2_nostd.Transport.Frame.{write_frame, read_frame}
use zenoh_ros2_nostd.Transport.Protocol.{
  proto_version, client, ZenohId, InitSyn, InitAck, OpenSyn, OpenAck,
}
use zenoh_ros2_nostd.Transport.Codec.Init.{encode_init_syn, decode_init_ack}
use zenoh_ros2_nostd.Transport.Codec.Opening.{encode_open_syn, decode_open_ack}

abbrev pub default_lease_ms : ℕ
default_lease_ms = 10_000

pub record HandshakeResult : Type 0 where
  pub router_zid : ZenohId
  pub lease_ms : ℕ
  pub our_lease_ms : ℕ
  pub initial_sn : ℕ
  pub router_initial_sn : ℕ

abbrev pub client_init_syn : ZenohId → InitSyn
client_init_syn zid = record {
  version = proto_version;
  whatami = client;
  zid = zid;
  batch_size = none;
}

abbrev pub client_open_syn : InitAck → OpenSyn
client_open_syn ack = record { lease_ms = default_lease_ms; initial_sn = 0; cookie = ack.cookie }

abbrev pub handshake_result : InitAck → OpenAck → HandshakeResult
handshake_result ack done = record {
  router_zid = ack.zid;
  lease_ms = done.lease_ms;
  our_lease_ms = default_lease_ms;
  initial_sn = 0;
  router_initial_sn = done.initial_sn;
}

-- `tx_buf` is the transmit buffer, and `rx_size` the size of the receive buffer. The second
-- message is encoded over what the first one left in `tx_buf`.
unfoldable pub client_handshake :
    (link : Link) → ZenohId → List ℕ → ℕ → Io link.State TransportError HandshakeResult
client_handshake link our_zid tx_buf rx_size = do
  (w, r) ← pure (encode_init_syn (client_init_syn our_zid) tx_buf)
  write_frame link w
  init_msg ← read_frame link rx_size
  (ack, n) ← pure (decode_init_ack init_msg)
  pure (fail_if (not (ack.version == proto_version)) version_mismatch)
  (w', r') ← pure (encode_open_syn (client_open_syn ack) (w ++ r))
  write_frame link w'
  open_msg ← read_frame link rx_size
  (done, m) ← pure (decode_open_ack open_msg)
  pure (ok (handshake_result ack done))
