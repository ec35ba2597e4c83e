-- ===== src/Ros2/Subscription.antt =====
-- src/session/subscriber.rs and src/ros2/subscription.rs: the queue between the session and a task
-- that receives. The type of the messages is a shape of the serde data model.
pub mod Queue
use zenoh_ros2_nostd.Common.{
  ℕ, zero, suc, List, Bool, true, false, Option, none, some, length, take, min, Outcome, ok, err,
  panic, ◌>>=◌, map_err,
}
use zenoh_ros2_nostd.Error.Top.{Error, cdr}
use zenoh_ros2_nostd.Cdr.{Shape, Value}
use zenoh_ros2_nostd.Cdr.De.{deserialize_with_header}
use zenoh_ros2_nostd.Ros2.Channel.{Channel}
use zenoh_ros2_nostd.Ros2.Locality.{Locality, any}

pub record SubMessage : Type 0 where
  pub payload : List ℕ

-- `msg_size` is the parameter MSG_SIZE; QUEUE is the capacity of the channel.
pub record Subscriber (C : Type 0) : Type 0 where
  pub msg_size : ℕ
  pub channel : C

pub record Subscription (C : Type 0) : Type 0 where
  pub inner : Subscriber C
  pub locality : Locality

abbrev pub over_channel : {C : Type 0} → Subscription C → C → Subscription C
over_channel s c = record s { inner = record s.inner { channel = c } }

unfoldable pub new_subscription : {C : Type 0} → ℕ → C → Subscription C
new_subscription msg_size channel = record {
  inner = record { msg_size = msg_size; channel = channel };
  locality = any;
}

unfoldable pub subscription_with_locality : {C : Type 0} → ℕ → C → Locality → Subscription C
subscription_with_locality msg_size channel locality = record {
  inner = record { msg_size = msg_size; channel = channel };
  locality = locality;
}

-- `cdr::deserialize_with_header::<M>(..).map(|(m, _)| m).map_err(Error::Cdr)`
unfoldable pub message_of : (shape : Shape) → SubMessage → Outcome Error (Value shape)
message_of shape raw = map_err cdr (deserialize_with_header shape raw.payload) >>= λ (m, n). ok m

abbrev pub received_message :
    {C : Type 0} (shape : Shape) → Option SubMessage → C → Option (Outcome Error (Value shape)) × C
received_message shape none c = (none, c)
received_message shape (some raw) c = (some (message_of shape raw), c)

module _ (channel : Channel SubMessage) where
  open channel use {State, try_send, try_receive}

  -- `push`: the payload is cut at MSG_SIZE, and what a full channel answers is dropped.
  unfoldable pub push : List ℕ → Subscriber State → Subscriber State
  push payload s =
      let message : SubMessage = record {
        payload = take (min (length payload) s.msg_size) payload;
      } in
      record s { channel = (try_send message s.channel).1 }

  unfoldable pub push_raw : List ℕ → Subscription State → Subscription State
  unfolding push
  push_raw payload s = record s { inner = push payload s.inner }

  -- `while self.channel.try_receive().is_ok() {}`; `none` where the fuel is spent in the loop.
  unfoldable pub clear_loop : ℕ → State → Option State
  clear_loop zero c = none
  clear_loop (suc fuel) c = elim (try_receive c).0 [
    | some message ↦ clear_loop fuel (try_receive c).1
    | none ↦ some (try_receive c).1
  ]

  unfoldable pub clear : ℕ → Subscription State → Option (Subscription State)
  unfolding clear_loop
  clear fuel s = elim (clear_loop fuel s.inner.channel) [
    | none ↦ none
    | some c ↦ some (over_channel s c)
  ]

  unfoldable pub try_recv :
      (shape : Shape)
      → Subscription State
      → Option (Outcome Error (Value shape)) × Subscription State
  try_recv shape s =
      let (answer, c) =
        received_message shape (try_receive s.inner.channel).0 (try_receive s.inner.channel).1 in
      (answer, over_channel s c)
