-- ===== src/Ros2/Subscription/Queue.antt =====
-- The queue of a subscription against the list of what it holds.
use zenoh_ros2_nostd.Common.{
  ℕ, zero, suc, ◌≤◌, ◌<◌, ◌≡◌, refl, List, [], ◌∷◌, ◌++◌, none, some, length, take, min, arith,
}
use zenoh_ros2_nostd.Cdr.{Shape}
use zenoh_ros2_nostd.Ros2.Channel.{Channel, KeepsOrder}
use zenoh_ros2_nostd.Ros2.Subscription.{
  SubMessage, Subscription, push, push_raw, clear, clear_loop, try_recv, message_of, over_channel,
}

-- A payload as a queue for messages of `size` bytes keeps it.
abbrev pub cut : ℕ → List ℕ → SubMessage
cut size payload = record { payload = take (min (length payload) size) payload }

module _ (channel : Channel SubMessage) (order : KeepsOrder channel) where
  open channel use {State}

  abbrev pub queued : Subscription State → List SubMessage
  queued s = order.contents s.inner.channel

  -- A payload that arrives is queued behind the others, cut at the size of a message, where there
  -- is room; where there is none it is dropped, and what is queued stays.
  pub push_raw-queued :
      (payload : List ℕ) (s : Subscription State)
      → (length (queued s) < order.capacity s.inner.channel
          → queued (push_raw channel payload s) ≡ queued s ++ (cut s.inner.msg_size payload ∷ []))
        × (order.capacity s.inner.channel ≤ length (queued s)
            → queued (push_raw channel payload s) ≡ queued s)
        × (order.capacity (push_raw channel payload s).inner.channel
            ≡ order.capacity s.inner.channel)
  unfolding push_raw push
  push_raw-queued payload s =
      let message = cut s.inner.msg_size payload in
      (
        λ h. (order.try_send-room message s.inner.channel h).1,
        λ h. (order.try_send_full message s.inner.channel h).1,
        order.capacity-try_send message s.inner.channel,
      )

  -- `try_recv` takes the oldest message and deserializes it, whether or not that succeeds, and
  -- answers nothing exactly where nothing is queued.
  pub try_recv-queued :
      (shape : Shape) (s : Subscription State)
      → ((m : SubMessage) (rest : List SubMessage)
          → queued s ≡ m ∷ rest
          → ((try_recv channel shape s).0 ≡ some (message_of shape m))
            × (queued (try_recv channel shape s).1 ≡ rest))
        × (queued s ≡ []
            → ((try_recv channel shape s).0 ≡ none) × (queued (try_recv channel shape s).1 ≡ []))
  unfolding try_recv
  try_recv-queued shape s = (
    λ m rest e.
        let (got, left) = order.try_receive-some m rest s.inner.channel e in rw got (refl, left),
    λ e. let (got, left) = order.try_receive_empty s.inner.channel e in rw got (refl, left),
  )

  clear_loop-empty :
      (fuel : ℕ) (held : List SubMessage) (c : State)
      → order.contents c ≡ held
      → length held < fuel
      → (c' : State) × (clear_loop channel fuel c ≡ some c') × (order.contents c' ≡ [])
  unfolding clear_loop
  clear_loop-empty zero held c e h = absurd (omega arith)
  clear_loop-empty (suc fuel) [] c e h =
      let (got, left) = order.try_receive_empty c e in
      ((channel.try_receive c).1, rw (clear_loop, got) refl, left)
  clear_loop-empty (suc fuel) (m ∷ rest) c e h =
      let (got, left) = order.try_receive-some m rest c e in
      let (c', ends, none_left) =
        clear_loop-empty fuel rest (channel.try_receive c).1 left (omega arith) in
      (c', rw (clear_loop, got) ends, none_left)

  -- `clear` leaves its loop, after one round for each message that is queued and one more, and
  -- nothing is queued then; the size of a message and the locality stay.
  pub clear-empty :
      (fuel : ℕ) (s : Subscription State)
      → length (queued s) < fuel
      → (s' : Subscription State) × (clear channel fuel s ≡ some s')
        × (queued s' ≡ [])
        × (s'.inner.msg_size ≡ s.inner.msg_size)
        × (s'.locality ≡ s.locality)
  unfolding clear
  clear-empty fuel s h =
      let (c', ends, none_left) = clear_loop-empty fuel (queued s) s.inner.channel refl h in
      (over_channel s c', rw (clear, ends) refl, none_left, refl, refl)
