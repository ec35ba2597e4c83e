-- ===== src/Sdk/Drain.antt =====
-- src/sdk/node.rs: `drain_publishers`, which sends what the publishers hold, several messages in one
-- frame where they fit.
pub mod Steps
pub mod Batches
pub mod Frames
pub mod Sent
use zenoh_ros2_nostd.Common.{
  ℕ, zero, suc, ◌+◌, ◌-◌, ◌%◌, List, [], ◌∷◌, ◌++◌, Bool, true, false, ◌&&◌, Option, none, some,
  length, replicate, ltb, if◌then◌else◌, Outcome, ok, err, panic, map_err,
}
use zenoh_ros2_nostd.Error.{Wire}
use zenoh_ros2_nostd.Error.Top.{Error, transport, invalid_argument}
use zenoh_ros2_nostd.Transport.Link.{Link, Io, ◌>>=◌, ◌>>◌, pure}
use zenoh_ros2_nostd.Transport.Frame.{write_frame}
use zenoh_ros2_nostd.Transport.Codec.Header.{encode_frame_header}
use zenoh_ros2_nostd.Transport.Codec.Put.{encode_push_put_with_attachment}
use zenoh_ros2_nostd.Ros2.Channel.{Channel}
use zenoh_ros2_nostd.Ros2.Locality.{is_session_local, is_remote}
use zenoh_ros2_nostd.Ros2.Keyexpr.{to_key_expr}
use zenoh_ros2_nostd.Ros2.Publisher.{Publisher, CdrPayload, Drained, try_drain_into, stash_retry}
use zenoh_ros2_nostd.Ros2.Subscription.{SubMessage}
use zenoh_ros2_nostd.Sdk.Node.{
  Node, tx_frame_buf, cdr_drain_buf, get_sn, advance_sn, written_by, text_of,
}
use zenoh_ros2_nostd.Sdk.Topics.{dispatch_local}
use zenoh_ros2_nostd.Sdk.World.{World, with_link, with_publisher, on_node}

-- `bytes` is `frame_buf[..pos]`, `last` the message that was drained last.
pub record Batch : Type 0 where
  pub bytes : List ℕ
  pub started : Bool
  pub last : Drained

abbrev pub no_batch : Batch
no_batch = record { bytes = []; started = false; last = ([], 0, 0) }

-- `ke.as_str().len() + n + 64`
abbrev pub msg_est : List ℕ → Drained → ℕ
msg_est ke m = length ke + length m.0 + 64

module _ (link : Link) (pubs : Channel CdrPayload) (subs : Channel SubMessage) where
  abbrev pub Machine : Type 0
  Machine = World link.State pubs.State subs.State

  -- The message that goes back to the publisher when a frame cannot be written.
  abbrev pub stashed : ℕ → Drained → Machine → Machine
  stashed address m w = with_publisher address (stash_retry m.0 m.1 m.2 (w.publishers address)) w

  abbrev pub flushed :
      ℕ → Drained → Wire (Unit {0}) × link.State → Machine → Outcome Error (Unit {0}) × Machine
  flushed address m (ok u, l) w = (ok tt, with_link l w)
  flushed address m (err e, l) w = (err (transport e), stashed address m (with_link l w))
  flushed address m (panic, l) w = (panic, with_link l w)

  -- One frame on the link; on an error the given message is stashed.
  unfoldable pub flush : ℕ → Drained → List ℕ → Io Machine Error (Unit {0})
  flush address m bytes w = flushed address m (write_frame link bytes w.node.link) w

  -- A new frame: its header at the start of the buffer, and the next number.
  unfoldable pub start_batch : Drained → Io Machine Error Batch
  start_batch m = do
    sn ← on_node get_sn
    (header, room) ← on_node (written_by (encode_frame_header sn true (replicate tx_frame_buf 0)))
    on_node advance_sn
    pure (ok (record { bytes = header; started = true; last = m }))

  -- The batch that a message is appended to: the one that was begun, or a new one, before which a
  -- full one is flushed.
  unfoldable pub open_batch : ℕ → List ℕ → Drained → Batch → Io Machine Error Batch
  unfolding flush start_batch
  open_batch address ke m batch =
      if batch.started
      then (if ltb tx_frame_buf (length batch.bytes + msg_est ke m)
          then flush address m batch.bytes >> start_batch m
          else pure (ok batch))
      else start_batch m

  unfoldable pub append_message : List ℕ → Drained → Batch → Io Machine Error Batch
  append_message ke m batch w =
      (do
        (body, room) ← on_node (
            written_by (
              encode_push_put_with_attachment ke m.0 m.1 m.2 w.node.gid
                (replicate (tx_frame_buf - length batch.bytes) 0)))
        pure (ok (record { bytes = batch.bytes ++ body; started = true; last = m })))
        w

  -- What is done with a message for the network, where the publisher is not for local messages only.
  unfoldable pub send_message : ℕ → Option (List ℕ) → Drained → Batch → Io Machine Error Batch
  unfolding open_batch append_message
  send_message address none m batch = pure (ok batch)
  send_message address (some ke) m batch = open_batch address ke m batch >>= append_message ke m

  -- Local dispatch, where the publisher is not for remote messages only.
  unfoldable pub send_local : ℕ → Drained → Io Machine Error (Unit {0})
  send_local address m w =
      let p = w.publishers address in
      let store = dispatch_local subs w.node.subscribers p.topic m.0 w.inbox.store in
      (
        ok tt,
        (if is_remote p.locality then w else record w { inbox = record w.inbox { store = store } }),
      )

  abbrev pub take_message : ℕ → Io Machine Error (Option Drained)
  take_message address w =
      let (answer, p) = try_drain_into pubs cdr_drain_buf (w.publishers address) in
      (ok answer, with_publisher address p w)

  -- `while let Some((n, seq, ts)) = drain.try_drain_into(&mut cdr_scratch)`; where the fuel is spent
  -- in the loop the answer is `panic`, so that no success comes of it.
  unfoldable pub drain_loop : ℕ → ℕ → Option (List ℕ) → Batch → Io Machine Error Batch
  unfolding send_local send_message
  drain_loop zero address ke batch = pure panic
  drain_loop (suc fuel) address ke batch = do
    next ← take_message address
    elim next [
      | none ↦ pure (ok batch)
      | some m ↦ do
        send_local address m
        batch ← send_message address ke m batch
        drain_loop fuel address ke batch
    ]

  -- The key expression, if messages go to the network.
  abbrev pub network_key : ℕ → Io Machine Error (Option (List ℕ))
  network_key address w =
      let p = w.publishers address in
      if is_session_local p.locality
      then (ok none, w)
      else (text_of (to_key_expr p.topic) >>= λ ke. pure (ok (some ke))) w

  unfoldable pub drain_publisher : ℕ → ℕ → Io Machine Error (Unit {0})
  unfolding drain_loop flush
  drain_publisher fuel address = do
    ke ← network_key address
    batch ← drain_loop fuel address ke no_batch
    (if batch.started then flush address batch.last batch.bytes else pure (ok tt))

  unfoldable pub drain_each : ℕ → List ℕ → Io Machine Error (Unit {0})
  unfolding drain_publisher
  drain_each fuel [] = pure (ok tt)
  drain_each fuel (address ∷ rest) = drain_publisher fuel address >> drain_each fuel rest

  unfoldable pub drain_publishers : ℕ → Io Machine Error (Unit {0})
  unfolding drain_each
  drain_publishers fuel w = drain_each fuel w.node.publishers w
