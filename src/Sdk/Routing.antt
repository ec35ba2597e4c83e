-- ===== src/Sdk/Routing.antt =====
-- src/sdk/node.rs: what a node does with a frame that arrives.
pub mod Delivery
pub mod Fragments
pub mod Answers
use zenoh_ros2_nostd.Common.{
  ℕ, ◌%◌, List, [], ◌∷◌, Bool, true, false, Option, none, some, ◌==◌, ◌||◌, if◌then◌else◌, length,
  drop, ltb, Outcome, ok, err, panic,
}
use zenoh_ros2_nostd.Error.{Wire, connection_closed}
use zenoh_ros2_nostd.Error.Top.{Error, transport}
use zenoh_ros2_nostd.Transport.Codec.Header.{
  decode_frame_header, decode_fragment_header, TransportMsgKind, parse_transport_msg_kind, init,
  open_msg, close, keep_alive, frame, fragment, other,
}
use zenoh_ros2_nostd.Transport.Codec.Put.{IncomingPut, decode_push_put}
use zenoh_ros2_nostd.Transport.Fragment.{FragmentAssembler, feed}
use zenoh_ros2_nostd.Session.{u16_size}
use zenoh_ros2_nostd.Ros2.Channel.{Channel}
use zenoh_ros2_nostd.Ros2.Locality.{is_session_local}
use zenoh_ros2_nostd.Ros2.Subscription.{SubMessage, Subscription}
use zenoh_ros2_nostd.Sdk.Statics.{Store}
use zenoh_ros2_nostd.Sdk.Node.{SubscriberEntry, fragment_buf_size}
use zenoh_ros2_nostd.Sdk.Topics.{deliver}

-- What the frames of a session change: the queues of the subscriptions, the message in fragments,
-- and what the application was told through `on_message`, the key and the payload each time.
pub record Inbox (S : Type 0) : Type 0 where
  pub store : Store (Subscription S)
  pub assembler : FragmentAssembler
  pub told : List (List ℕ × List ℕ)

-- Whether a message with this number for its key is for the entry.
abbrev pub takes_remote : ℕ → SubscriberEntry → Bool
takes_remote scope_id entry =
    if entry.key_id == 0 || is_session_local entry.locality then false else scope_id == entry.key_id

module _ (channel : Channel SubMessage) where
  open channel use {State}

  unfoldable pub route_to_subscribers :
      List SubscriberEntry → ℕ → List ℕ → Store (Subscription State) → Store (Subscription State)
  route_to_subscribers [] scope_id payload store = store
  route_to_subscribers (entry ∷ entries) scope_id payload store =
      if takes_remote scope_id entry
      then deliver channel entry payload store
      else route_to_subscribers entries scope_id payload store

  -- A Put goes to the subscribers. `put.scope as u16` keeps the low half of a number.
  abbrev pub routed : List SubscriberEntry → IncomingPut → Inbox State → Inbox State
  routed entries put inbox = record inbox {
    store = route_to_subscribers entries (put.scope % u16_size) put.payload inbox.store;
  }

  -- `callbacks.on_message(put.key_suffix, put.payload)`, where the node has callbacks.
  abbrev pub told_of : Bool → IncomingPut → Inbox State → Inbox State
  told_of true put inbox = record inbox { told = (put.key_suffix, put.payload) ∷ inbox.told }
  told_of false put inbox = inbox

  -- `if let Ok(Some((put, _))) = decode_push_put(..)`: what does not decode is passed over.
  unfoldable pub handle_put :
      Bool
      → List SubscriberEntry
      → Wire (Option (IncomingPut × ℕ))
      → Inbox State
      → Outcome Error (Unit {0}) × Inbox State
  unfolding route_to_subscribers
  handle_put callbacks entries (ok (some (put, n))) inbox =
      (ok tt, told_of callbacks put (routed entries put inbox))
  handle_put callbacks entries (ok none) inbox = (ok tt, inbox)
  handle_put callbacks entries (err e) inbox = (ok tt, inbox)
  handle_put callbacks entries panic inbox = (panic, inbox)

  -- What `feed` answers with the last fragment is a message.
  unfoldable pub handle_assembled :
      Bool
      → List SubscriberEntry
      → Wire (Option (List ℕ))
      → Inbox State
      → Outcome Error (Unit {0}) × Inbox State
  unfolding handle_put
  handle_assembled callbacks entries (ok (some assembled)) inbox =
      handle_put callbacks entries (decode_push_put assembled) inbox
  handle_assembled callbacks entries (ok none) inbox = (ok tt, inbox)
  handle_assembled callbacks entries (err e) inbox = (ok tt, inbox)
  handle_assembled callbacks entries panic inbox = (panic, inbox)

  -- `&frame_buf[body_pos..]` is out of range past the end.
  unfoldable pub handle_frame :
      Bool
      → List SubscriberEntry
      → List ℕ
      → Wire (ℕ × Bool × ℕ)
      → Inbox State
      → Outcome Error (Unit {0}) × Inbox State
  unfolding handle_put
  handle_frame callbacks entries bytes (ok (sn, reliable, body_pos)) inbox =
      if ltb (length bytes) body_pos
      then (panic, inbox)
      else handle_put callbacks entries (decode_push_put (drop body_pos bytes)) inbox
  handle_frame callbacks entries bytes (err e) inbox = (ok tt, inbox)
  handle_frame callbacks entries bytes panic inbox = (panic, inbox)

  unfoldable pub handle_fragment :
      Bool
      → List SubscriberEntry
      → List ℕ
      → Wire (ℕ × Bool × Bool × ℕ)
      → Inbox State
      → Outcome Error (Unit {0}) × Inbox State
  unfolding handle_assembled
  handle_fragment callbacks entries bytes (ok (sn, reliable, more, body_pos)) inbox =
      let (answer, assembler) = feed fragment_buf_size inbox.assembler more (drop body_pos bytes) in
      if ltb (length bytes) body_pos
      then (panic, inbox)
      else handle_assembled callbacks entries answer (record inbox { assembler = assembler })
  handle_fragment callbacks entries bytes (err e) inbox = (ok tt, inbox)
  handle_fragment callbacks entries bytes panic inbox = (panic, inbox)

  unfoldable pub handle_kind :
      Bool
      → List SubscriberEntry
      → TransportMsgKind
      → List ℕ
      → Inbox State
      → Outcome Error (Unit {0}) × Inbox State
  unfolding handle_frame handle_fragment
  handle_kind callbacks entries frame bytes inbox =
      handle_frame callbacks entries bytes (decode_frame_header bytes) inbox
  handle_kind callbacks entries fragment bytes inbox =
      handle_fragment callbacks entries bytes (decode_fragment_header bytes) inbox
  handle_kind callbacks entries close bytes inbox = (err (transport connection_closed), inbox)
  handle_kind callbacks entries init bytes inbox = (ok tt, inbox)
  handle_kind callbacks entries open_msg bytes inbox = (ok tt, inbox)
  handle_kind callbacks entries keep_alive bytes inbox = (ok tt, inbox)
  handle_kind callbacks entries (other id) bytes inbox = (ok tt, inbox)

  unfoldable pub handle_bytes :
      Bool → List SubscriberEntry → List ℕ → Inbox State → Outcome Error (Unit {0}) × Inbox State
  unfolding handle_kind
  handle_bytes callbacks entries [] inbox = (ok tt, inbox)
  handle_bytes callbacks entries (header ∷ rest) inbox =
      handle_kind callbacks entries (parse_transport_msg_kind header) (header ∷ rest) inbox

  unfoldable pub dispatch_frame :
      List SubscriberEntry → List ℕ → Inbox State → Outcome Error (Unit {0}) × Inbox State
  unfolding handle_bytes
  dispatch_frame entries bytes inbox = handle_bytes false entries bytes inbox

  unfoldable pub dispatch_frame_with_callbacks :
      List SubscriberEntry → List ℕ → Inbox State → Outcome Error (Unit {0}) × Inbox State
  unfolding handle_bytes
  dispatch_frame_with_callbacks entries bytes inbox = handle_bytes true entries bytes inbox
