-- ===== src/Session.antt =====
-- src/session/session.rs: the session over a link, one call at a time. A call holds no lock when it
-- returns, so that its effect on the fields behind the mutexes is a step from state to state.
pub mod Lifecycle
pub mod Publish
pub mod Reconnect
pub mod Receive
use zenoh_ros2_nostd.Common.{
  ℕ, ◌+◌, ◌%◌, ◌^◌, List, [], ◌∷◌, ◌++◌, Bool, true, Option, none, some, length, drop, replicate,
  ltb, if◌then◌else◌, Outcome, ok, err, panic, map_err,
}
use zenoh_ros2_nostd.Error.{TransportError, Wire, connection_closed}
use zenoh_ros2_nostd.Error.Top.{Error, transport}
use zenoh_ros2_nostd.Transport.Link.{Link, Io, ◌>>=◌, ◌>>◌, pure}
use zenoh_ros2_nostd.Transport.Frame.{write_frame, read_frame}
use zenoh_ros2_nostd.Transport.Writer.{Encoder, ◌⨾◌}
use zenoh_ros2_nostd.Transport.Vbyte.{u64_size}
use zenoh_ros2_nostd.Transport.Protocol.{ZenohId}
use zenoh_ros2_nostd.Transport.Protocol.Ids.{close_generic}
use zenoh_ros2_nostd.Transport.Codec.Header.{
  encode_frame_header, decode_frame_header, encode_keepalive, encode_close, TransportMsgKind,
  parse_transport_msg_kind, init, open_msg, close, keep_alive, frame, fragment, other,
}
use zenoh_ros2_nostd.Transport.Codec.Declare.{
  encode_declare_keyexpr, encode_declare_subscriber_mapped,
}
use zenoh_ros2_nostd.Transport.Codec.Put.{
  encode_push_put, encode_push_put_with_attachment, decode_push_put, IncomingPut,
}
use zenoh_ros2_nostd.Transport.Handshake.{client_handshake, HandshakeResult}

pub data SessionState : Type 0 where
  disconnected connecting opened closing : SessionState

pub record SessionConfig : Type 0 where
  pub zid : ZenohId
  pub domain_id : ℕ

-- `sn_reliable` and `sn_best_effort` are u64, `next_key_id` is a u16.
pub record Session (L : Type 0) : Type 0 where
  pub link : L
  pub config : SessionConfig
  pub state : SessionState
  pub sn_reliable : ℕ
  pub sn_best_effort : ℕ
  pub next_key_id : ℕ
  pub lease_ms : ℕ

abbrev pub u16_size : ℕ
u16_size = 2 ^ 16

-- `Session::new` inside `open`.
abbrev pub fresh : {L : Type 0} → L → SessionConfig → Session L
fresh l config = record {
  link = l;
  config = config;
  state = disconnected;
  sn_reliable = 0;
  sn_best_effort = 0;
  next_key_id = 1;
  lease_ms = 0;
}

-- A call of the transport layer on the link, its error passed up.
abbrev pub on_link : {L A : Type 0} → Io L TransportError A → Io (Session L) Error A
on_link m s = (map_err transport (m s.link).0, record s { link = (m s.link).1 })

abbrev pub set_state : {L : Type 0} → SessionState → Io (Session L) Error (Unit {0})
set_state state s = (ok tt, record s { state = state })

unfoldable pub next_sn_reliable : {L : Type 0} → Io (Session L) Error ℕ
next_sn_reliable s = (ok s.sn_reliable, record s { sn_reliable = (s.sn_reliable + 1) % u64_size })

-- The first block of `declare_key_expr`.
unfoldable pub take_key_id : {L : Type 0} → Io (Session L) Error ℕ
take_key_id s = (ok s.next_key_id, record s { next_key_id = (s.next_key_id + 1) % u16_size })

-- `&tx_buf[..pos]` of an encoder's result, its error passed up.
abbrev pub written : Wire (List ℕ × List ℕ) → Outcome Error (List ℕ)
written (ok (w, r)) = ok w
written (err e) = err (transport e)
written panic = panic

-- An encoder on a new buffer of zeros.
abbrev pub encoded : {L : Type 0} → ℕ → Encoder → Io (Session L) Error (List ℕ)
encoded size message = pure (written (message (replicate size 0)))

-- What `recv_once` makes of the body of a Frame: the key and the payload of a Push with a Put.
unfoldable pub received : Wire (Option (IncomingPut × ℕ)) → Outcome Error (Option (List ℕ × List ℕ))
received (ok none) = ok none
received (ok (some (put, n))) = ok (some (put.key_suffix, put.payload))
received (err e) = err (transport e)
received panic = panic

-- The body of a Frame: `&msg_buf[body_pos..]` is out of range past the end.
unfoldable pub receive_body :
    List ℕ → Wire (ℕ × Bool × ℕ) → Outcome Error (Option (List ℕ × List ℕ))
unfolding received
receive_body message (ok (sn, reliable, body_pos)) =
    if ltb (length message) body_pos
    then panic
    else received (decode_push_put (drop body_pos message))
receive_body message (err e) = err (transport e)
receive_body message panic = panic

unfoldable pub dispatch : TransportMsgKind → List ℕ → Outcome Error (Option (List ℕ × List ℕ))
unfolding receive_body
dispatch frame message = receive_body message (decode_frame_header message)
dispatch keep_alive message = ok none
dispatch close message = err (transport connection_closed)
dispatch init message = ok none
dispatch open_msg message = ok none
dispatch fragment message = ok none
dispatch (other id) message = ok none

-- `msg_buf[0]` is out of range for a frame without bytes.
unfoldable pub receive : List ℕ → Outcome Error (Option (List ℕ × List ℕ))
unfolding dispatch
receive [] = panic
receive (header ∷ rest) = dispatch (parse_transport_msg_kind header) (header ∷ rest)

-- `session.do_handshake().await?; Ok(session)`
abbrev pub session_of :
    {L : Type 0} → Outcome Error HandshakeResult × Session L → Outcome Error (Session L)
session_of (ok result, s) = ok s
session_of (err e, s) = err e
session_of (panic, s) = panic

-- `tx_size` and `rx_size` are the parameters TX_BUF and RX_BUF.
module _ (link : Link) (tx_size rx_size : ℕ) where
  open link use {State}

  -- The part that `declare_key_expr`, `put`, `put_with_attachment` and `subscribe` share: the next
  -- number, the frame header and the message behind it, and one frame on the link.
  unfoldable pub send_reliable : Encoder → Io (Session State) Error (Unit {0})
  unfolding next_sn_reliable
  send_reliable message = do
    sn ← next_sn_reliable
    bytes ← encoded tx_size (encode_frame_header sn true ⨾ message)
    on_link (write_frame link bytes)

  unfoldable pub declare_key_expr : List ℕ → Io (Session State) Error ℕ
  unfolding take_key_id send_reliable
  declare_key_expr key_expr = do
    key_id ← take_key_id
    send_reliable (encode_declare_keyexpr key_id key_expr)
    pure (ok key_id)

  unfoldable pub put_with_attachment :
      List ℕ → List ℕ → ℕ → ℕ → ZenohId → Io (Session State) Error (Unit {0})
  unfolding send_reliable
  put_with_attachment key_expr payload seq_num timestamp_ns gid =
      send_reliable (encode_push_put_with_attachment key_expr payload seq_num timestamp_ns gid)

  unfoldable pub put : List ℕ → List ℕ → Io (Session State) Error (Unit {0})
  unfolding send_reliable
  put key_expr payload = send_reliable (encode_push_put key_expr 0 payload)

  unfoldable pub keepalive : Io (Session State) Error (Unit {0})
  keepalive = do bytes ← encoded 8 encode_keepalive; on_link (write_frame link bytes)

  unfoldable pub subscribe : List ℕ → Io (Session State) Error ℕ
  unfolding declare_key_expr send_reliable
  subscribe key_expr = do
    key_id ← declare_key_expr key_expr
    send_reliable (encode_declare_subscriber_mapped key_id key_id)
    pure (ok key_id)

  -- `size` is the length of the caller's buffer.
  unfoldable pub recv_once : ℕ → Io (Session State) Error (Option (List ℕ × List ℕ))
  unfolding receive
  recv_once size = do message ← on_link (read_frame link size); pure (receive message)

  unfoldable pub close_session : Io (Session State) Error (Unit {0})
  close_session = do
    set_state closing
    bytes ← encoded 8 (encode_close close_generic)
    on_link (write_frame link bytes)
    set_state disconnected

  unfoldable pub do_handshake : Io (Session State) Error HandshakeResult
  do_handshake s =
      (do
        set_state connecting
        result ← on_link (client_handshake link s.config.zid (replicate tx_size 0) rx_size)
        set_state opened
        pure (ok result))
        s

  -- `open` drops what the handshake returns, and on an error the link with the session.
  unfoldable pub open_session : State → SessionConfig → Outcome Error (Session State)
  unfolding do_handshake
  open_session l config = session_of (do_handshake (fresh l config))
