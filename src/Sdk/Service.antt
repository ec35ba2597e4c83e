-- ===== src/Sdk/Service.antt =====
-- src/sdk/node.rs: `call_service`, the client of a service.
pub mod Reply
use zenoh_ros2_nostd.Common.{
  ℕ, ◌+◌, ◌%◌, List, [], ◌∷◌, ◌++◌, Bool, Option, none, some, length, drop, get_or, replicate, ltb,
  ◌==◌, if◌then◌else◌, Outcome, ok, err, panic, map_err,
}
use zenoh_ros2_nostd.Error.{Wire, connection_closed}
use zenoh_ros2_nostd.Error.Top.{Error, cdr, transport, timeout, service_no_reply}
use zenoh_ros2_nostd.Transport.Link.{Link, Io, ◌>>=◌, ◌>>◌, pure}
use zenoh_ros2_nostd.Transport.Frame.{read_frame}
use zenoh_ros2_nostd.Transport.Protocol.Ids.{transport_frame, transport_close}
use zenoh_ros2_nostd.Transport.Codec.Header.{msg_id, decode_frame_header}
use zenoh_ros2_nostd.Transport.Codec.Service.{
  encode_request_query, decode_response, ResponseMsg, reply, final, u32_size,
}
use zenoh_ros2_nostd.Cdr.{Shape, Value}
use zenoh_ros2_nostd.Ros2.Channel.{Channel}
use zenoh_ros2_nostd.Ros2.Keyexpr.{TopicKeyExpr, to_key_expr}
use zenoh_ros2_nostd.Ros2.Liveliness.{service_client}
use zenoh_ros2_nostd.Ros2.Publisher.{CdrPayload, serialized}
use zenoh_ros2_nostd.Ros2.Subscription.{SubMessage, message_of}
use zenoh_ros2_nostd.Sdk.Node.{
  Node, tx_frame_buf, rx_buf_size, text_of, send_framed, declare_liveliness,
}
use zenoh_ros2_nostd.Sdk.Routing.{dispatch_frame}
use zenoh_ros2_nostd.Sdk.World.{World, on_node, on_wire, on_inbox, with_link}
use zenoh_ros2_nostd.Sdk.Drain.{Machine}
use zenoh_ros2_nostd.Sdk.Spin.{Wait, reads, times_out}

-- `self.request_id_gen.wrapping_add(1)`
abbrev pub take_request : {L : Type 0} → Io (Node L) Error ℕ
take_request n =
    (ok n.request_id_gen, record n { request_id_gen = (n.request_id_gen + 1) % u32_size })

-- `return Ok(resp)`, or the error of the deserializer.
abbrev pub returned : {A : Type 0} → Outcome Error A → Outcome Error (Option A)
returned (ok a) = ok (some a)
returned (err e) = err e
returned panic = panic

-- What a response means for the call with a number: `some` result that it returns with, or none
-- where it is not for this call.
unfoldable pub response_for :
    (shape : Shape) → ℕ → Wire (Option (ResponseMsg × ℕ)) → Outcome Error (Option (Value shape))
response_for shape id (ok (some (reply r, n))) =
    if r.request_id == id
    then returned (message_of shape (record { payload = r.payload }))
    else ok none
response_for shape id (ok (some (final rid, n))) =
    if rid == id then err service_no_reply else ok none
response_for shape id (ok none) = ok none
response_for shape id (err e) = ok none
response_for shape id panic = panic

-- `rx_buf` after a frame was read into it, of which the first byte is looked at.
abbrev pub received_into : List ℕ → List ℕ → List ℕ
received_into bytes rx_buf = bytes ++ drop (length bytes) rx_buf

module _ (link : Link) (pubs : Channel CdrPayload) (subs : Channel SubMessage) where
  abbrev pub State : Type 0
  State = Machine link pubs subs

  -- `let _ = self.dispatch_frame(..)`
  abbrev pub dispatch_ignored : List ℕ → Io State Error (Unit {0})
  dispatch_ignored bytes w = ignored (on_inbox (dispatch_frame subs w.node.subscribers bytes) w)
    where
      ignored : Outcome Error (Unit {0}) × State → Outcome Error (Unit {0}) × State
      ignored (ok u, w') = (ok tt, w')
      ignored (err e, w') = (ok tt, w')
      ignored (panic, w') = (panic, w')

  -- With the header of a Frame decoded, a response, and then a message to dispatch where it was not
  -- the answer. `&rx_buf[body_pos..n]` is out of range past the end.
  unfoldable pub answer_in :
      (shape : Shape) → ℕ → List ℕ → Wire (ℕ × Bool × ℕ) → Io State Error (Option (Value shape))
  unfolding response_for
  answer_in shape id bytes (ok (sn, reliable, body_pos)) = do
    answer ← pure (
        if ltb (length bytes) body_pos
        then panic
        else response_for shape id (decode_response (drop body_pos bytes)))
    elim answer [ some v ↦ pure (ok (some v)) | none ↦ dispatch_ignored bytes >> pure (ok none) ]
  answer_in shape id bytes (err e) = pure (ok none)
  answer_in shape id bytes panic = pure panic

  -- The body of the loop for a frame, by the first byte of `rx_buf`, whatever the frame's length.
  unfoldable pub answer_to :
      (shape : Shape) → ℕ → List ℕ → List ℕ → Io State Error (Option (Value shape))
  unfolding answer_in
  answer_to shape id bytes rx_buf =
      let head = msg_id (get_or rx_buf 0 0) in
      if head == transport_frame
      then answer_in shape id bytes (decode_frame_header bytes)
      else (if head == transport_close
          then pure (err (transport connection_closed))
          else pure (ok none))

  -- The loop, over the waits that it comes to; `none` where it still waits behind the last of them.
  unfoldable pub await_reply :
      (shape : Shape) → ℕ → List (Wait link.State) → List ℕ → Io State Error (Option (Value shape))
  unfolding answer_to
  await_reply shape id [] rx_buf = pure (ok none)
  await_reply shape id (times_out l ∷ waits) rx_buf = λ w. (err timeout, with_link l w)
  await_reply shape id (reads ∷ waits) rx_buf = do
    bytes ← on_wire (read_frame link rx_buf_size)
    answer ← answer_to shape id bytes (received_into bytes rx_buf)
    elim answer [
      | some v ↦ pure (ok (some v))
      | none ↦ await_reply shape id waits (received_into bytes rx_buf)
    ]

  unfoldable pub call_service :
      (request response : Shape)
      → ℕ
      → TopicKeyExpr
      → Value request
      → List (Wait link.State)
      → Io State Error (Option (Value response))
  unfolding await_reply
  call_service request response cdr_req service_ke message waits w =
      (do
        ke ← text_of (to_key_expr service_ke)
        bytes ← pure (serialized request message cdr_req)
        id ← on_node take_request
        on_node (declare_liveliness link service_client service_ke)
        on_node (send_framed link tx_frame_buf (encode_request_query id ke bytes id 0 w.node.gid))
        await_reply response id waits (replicate rx_buf_size 0))
        w
