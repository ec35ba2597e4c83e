-- ===== src/Session/Receive.antt =====
-- What `recv_once` of src/session/session.rs makes of the messages that arrive.
use zenoh_ros2_nostd.Common.{
  ℕ, ◌+◌, ◌≤◌, ◌<◌, ◌≡◌, refl, ap, sym, ◌∙◌, append_assoc, append-nil, append_cancel, List, [], ◌∷◌,
  ◌++◌, true, none, some, length, length-append, drop_front, le→ltb, arith, ok, err, panic,
}
use zenoh_ros2_nostd.Error.{connection_closed}
use zenoh_ros2_nostd.Error.Top.{transport}
use zenoh_ros2_nostd.Transport.Link.{Link, Promises}
use zenoh_ros2_nostd.Transport.Frame.RoundTrip.{frame_image, read_frame-frame_image, IsWritable}
use zenoh_ros2_nostd.Transport.Reader.{usize_size}
use zenoh_ros2_nostd.Transport.Vbyte.{u64_size}
use zenoh_ros2_nostd.Transport.Slice.Utf8.{is_utf8}
use zenoh_ros2_nostd.Transport.Codec.Header.{parse_transport_msg_kind}
use zenoh_ros2_nostd.Transport.Codec.Header.RoundTrip.{
  frame_header_image, decode_frame_header-image, length-frame_header_image,
}
use zenoh_ros2_nostd.Transport.Codec.Put.{decode_push_put}
use zenoh_ros2_nostd.Transport.Codec.Put.RoundTrip.{
  push_image, length-push_image, decode_push_put-push_image,
}
use zenoh_ros2_nostd.Session.{Session, put, recv_once, receive, dispatch, receive_body, received}
use zenoh_ros2_nostd.Session.Publish.{reliable_image, put-sent}

push_alone :
    (encoding_id : ℕ) (key payload : List ℕ)
    → is_utf8 key ≡ true
    → length key + 10 < usize_size
    → length payload + 10 < usize_size
    → decode_push_put (push_image key encoding_id payload)
      ≡ ok (
          some (
            record { scope = 0; key_suffix = key; payload = payload },
            length (push_image key encoding_id payload),
          ))
push_alone encoding_id key payload u hk hp =
    let image = push_image key encoding_id payload in
    ap decode_push_put (sym (append-nil image))
    ∙ decode_push_put-push_image key encoding_id payload [] u hk hp

-- A Push in a Frame is delivered with its key and its payload.
pub receive-reliable_image :
    (sn encoding_id : ℕ) (key payload : List ℕ)
    → sn < u64_size
    → is_utf8 key ≡ true
    → length key + 10 < usize_size
    → length payload + 10 < usize_size
    → receive (reliable_image sn (push_image key encoding_id payload)) ≡ ok (some (key, payload))
unfolding receive dispatch receive_body received parse_transport_msg_kind
receive-reliable_image sn encoding_id key payload hs u hk hp =
    let header = frame_header_image sn true in
    let body = push_image key encoding_id payload in
    rw
      (
        decode_frame_header-image sn true body hs,
        le→ltb (length (header ++ body)) (length header) (omega (arith, length-append header body)),
        drop_front header body,
      )
      (ap received (push_alone encoding_id key payload u hk hp))

-- The other messages of the transport: a KeepAlive is no delivery, a Close ends the connection,
-- whatever stands behind the header, with or without flags.
pub receive-keepalive_close :
    (rest : List ℕ)
    → (receive (0x04 ∷ rest) ≡ ok none)
      × (receive (0x03 ∷ rest) ≡ err (transport connection_closed))
unfolding receive dispatch parse_transport_msg_kind
receive-keepalive_close rest = (refl, refl)

-- A frame without bytes, which any peer can send, stops the client with a panic.
pub recv_once_empty :
    (link : Link) (p : Promises link) (tx_size rx_size size : ℕ) (s : Session link.State)
    (rest : List ℕ)
    → p.input s.link ≡ frame_image [] ++ rest
    → (recv_once link tx_size rx_size size s).0 ≡ panic
unfolding recv_once receive
recv_once_empty link p tx_size rx_size size s rest e =
    rw ((read_frame-frame_image link p size [] rest s.link (omega arith) (omega arith) e).0)

-- Over any two links that keep their promises, what a publisher's `put` adds to its link is what a
-- subscriber's `recv_once` makes the key and the payload of again, when it is next on the
-- subscriber's link; the subscriber takes exactly that frame. The key is UTF-8, the message fits
-- the two buffers, and no write fails.
pub recv_once-put :
    (out inward : Link) (p : Promises out) (q : Promises inward) (tx_size rx_size size : ℕ)
    (key payload rest : List ℕ) (s : Session out.State) (r : Session inward.State)
    → IsWritable out
    → is_utf8 key ≡ true
    → s.sn_reliable < u64_size
    → length key + length payload + 53 ≤ tx_size
    → tx_size ≤ size
    → size ≤ 0xffff
    → p.sent (put out tx_size rx_size key payload s).1.link ++ rest
      ≡ p.sent s.link ++ q.input r.link
    → let (answer, r') = recv_once inward tx_size rx_size size r in
      (answer ≡ ok (some (key, payload)))
      × (q.input r'.link ≡ rest)
      × (q.sent r'.link ≡ q.sent r.link)
unfolding recv_once
recv_once-put out inward p q tx_size rx_size size key payload rest s r writable u hs room fits short
      delivered =
    let message = reliable_image s.sn_reliable (push_image key 0 payload) in
    let (answer, sent, input, moved) =
      put-sent out tx_size rx_size p writable key payload s hs room (omega arith) in
    let same : p.sent s.link ++ (frame_image message ++ rest) ≡ p.sent s.link ++ q.input r.link =
      sym (append_assoc (p.sent s.link) (frame_image message) rest)
      ∙ ap (λ t. t ++ rest) (sym sent)
      ∙ delivered in
    let next : q.input r.link ≡ frame_image message ++ rest =
      sym (append_cancel (p.sent s.link) (frame_image message ++ rest) (q.input r.link) same) in
    let small : length message ≤ tx_size = omega (
      arith,
      length-append (frame_header_image s.sn_reliable true) (push_image key 0 payload),
      length-frame_header_image s.sn_reliable true,
      length-push_image key 0 payload,
    ) in
    let (got, left, quiet) =
      read_frame-frame_image inward q size message rest r.link (omega arith) (omega arith) next in
    rw (got, receive-reliable_image s.sn_reliable 0 key payload hs u (omega arith) (omega arith))
      (refl, left, quiet)
