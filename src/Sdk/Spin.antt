-- ===== src/Sdk/Spin.antt =====
-- src/sdk/node.rs: the rounds of `spin` and `spin_with_callbacks`. What the timer of embassy decides,
-- whether a frame is read before the wait ends, is an argument of a round.
pub mod Quiet
use zenoh_ros2_nostd.Common.{ℕ, ◌+◌, ◌/◌, min, List, [], ◌∷◌, Outcome, ok}
use zenoh_ros2_nostd.Error.Top.{Error}
use zenoh_ros2_nostd.Transport.Link.{Link, Io, ◌>>=◌, ◌>>◌, pure}
use zenoh_ros2_nostd.Transport.Frame.{read_frame}
use zenoh_ros2_nostd.Ros2.Channel.{Channel}
use zenoh_ros2_nostd.Ros2.Publisher.{CdrPayload}
use zenoh_ros2_nostd.Ros2.Subscription.{SubMessage}
use zenoh_ros2_nostd.Sdk.Node.{Node, rx_buf_size, send_keepalive}
use zenoh_ros2_nostd.Sdk.Timers.{fire_timers, next_deadline}
use zenoh_ros2_nostd.Sdk.Routing.{dispatch_frame, dispatch_frame_with_callbacks}
use zenoh_ros2_nostd.Sdk.World.{World, with_node, with_link, on_node, on_wire, on_inbox}
use zenoh_ros2_nostd.Sdk.Drain.{Machine, drain_publishers}

-- How `with_timeout(.., read_frame(..))` ends: with what `read_frame` answers, or with the wait over,
-- and then the link is as the read that was dropped has left it.
pub data Wait (L : Type 0) : Type 0 where
  reads : Wait L
  times_out : L → Wait L

-- `Duration::from_millis(effective_lease / 2)`, in milliseconds.
unfoldable pub keepalive_interval : {L : Type 0} → Node L → ℕ
keepalive_interval n = min n.our_lease_ms n.lease_ms / 2

-- The wait of a round with callbacks, for an interval in ticks.
unfoldable pub round_timeout : {L : Type 0} → ℕ → ℕ → Node L → ℕ
round_timeout now interval n = next_deadline now interval n.timers

module _ (link : Link) (pubs : Channel CdrPayload) (subs : Channel SubMessage) (fuel : ℕ) where
  abbrev pub State : Type 0
  State = Machine link pubs subs

  abbrev pub drain : Io State Error (Unit {0})
  drain = drain_publishers link pubs subs fuel

  abbrev pub set_link : link.State → Io State Error (Unit {0})
  set_link l w = (ok tt, with_link l w)

  abbrev pub dispatch_next : List ℕ → Io State Error (Unit {0})
  dispatch_next bytes w = on_inbox (dispatch_frame subs w.node.subscribers bytes) w

  unfoldable pub after_wait : Wait link.State → Io State Error (Unit {0})
  after_wait reads = on_wire (read_frame link rx_buf_size) >>= dispatch_next
  after_wait (times_out l) = set_link l >> (drain >> on_node (send_keepalive link))

  -- One round of the loop of `spin`; it returns from the loop with the first error.
  unfoldable pub spin_round : Wait link.State → Io State Error (Unit {0})
  unfolding after_wait
  spin_round wait = drain >> after_wait wait

  unfoldable pub spin : List (Wait link.State) → Io State Error (Unit {0})
  unfolding spin_round
  spin [] = pure (ok tt)
  spin (wait ∷ waits) = spin_round wait >> spin waits

  -- `self.fire_timers(callbacks)` at a time.
  unfoldable pub fire_due : ℕ → Io State Error (Unit {0})
  fire_due now w =
      let (timers, calls) = fire_timers now w.node.timers in
      (ok tt, record w { node = record w.node { timers = timers }; fired = w.fired + calls })

  abbrev pub dispatch_next_told : List ℕ → Io State Error (Unit {0})
  dispatch_next_told bytes w =
      on_inbox (dispatch_frame_with_callbacks subs w.node.subscribers bytes) w

  unfoldable pub after_wait_told : ℕ → Wait link.State → Io State Error (Unit {0})
  unfolding fire_due
  after_wait_told later reads = on_wire (read_frame link rx_buf_size) >>= dispatch_next_told
  after_wait_told later (times_out l) =
      set_link l >> (fire_due later >> (drain >> on_node (send_keepalive link)))

  -- One round of the loop of `spin_with_callbacks`, with the times of its two calls of `fire_timers`.
  unfoldable pub callbacks_round : ℕ → ℕ → Wait link.State → Io State Error (Unit {0})
  unfolding fire_due after_wait_told
  callbacks_round now later wait = drain >> (fire_due now >> after_wait_told later wait)
