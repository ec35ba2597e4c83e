-- ===== src/Ros2/Publisher.antt =====
-- src/ros2/publisher.rs: the queue between a task that publishes and the node, with a place for one
-- message that could not be sent. The type of the messages is a shape of the serde data model.
pub mod Pending
use zenoh_ros2_nostd.Common.{
  ℕ, ◌+◌, ◌-◌, ◌*◌, ◌%◌, ◌^◌, List, Bool, true, false, Option, none, some, length, take, replicate,
  min, ltb, if◌then◌else◌, Outcome, ok, err, panic, ◌>>=◌, map_err,
}
use zenoh_ros2_nostd.Error.Top.{Error, cdr, buffer_full}
use zenoh_ros2_nostd.Transport.Vbyte.{u64_size}
use zenoh_ros2_nostd.Cdr.{Shape, Value}
use zenoh_ros2_nostd.Cdr.Ser.{serialize_with_header}
use zenoh_ros2_nostd.Ros2.Channel.{Channel}
use zenoh_ros2_nostd.Ros2.Locality.{Locality, any}
use zenoh_ros2_nostd.Ros2.Keyexpr.{TopicKeyExpr}

-- The numbers are i64, and stand as their bit patterns.
pub record CdrPayload : Type 0 where
  pub data_bytes : List ℕ
  pub seq_num : ℕ
  pub timestamp_ns : ℕ

abbrev pub retry_cdr_cap : ℕ
retry_cdr_cap = 512

-- `bytes` is `data[..len]`.
pub record RetryPayload : Type 0 where
  pub bytes : List ℕ
  pub seq_num : ℕ
  pub timestamp_ns : ℕ

-- `cdr_cap` is the parameter CDR_CAP; QUEUE is the capacity of the channel.
pub record Publisher (C : Type 0) : Type 0 where
  pub topic : TopicKeyExpr
  pub locality : Locality
  pub cdr_cap : ℕ
  pub channel : C
  pub retry_slot : Option RetryPayload
  pub seq_num : ℕ

unfoldable pub publisher_with_locality :
    {C : Type 0} → ℕ → C → TopicKeyExpr → Locality → Publisher C
publisher_with_locality cdr_cap channel topic locality = record {
  topic = topic;
  locality = locality;
  cdr_cap = cdr_cap;
  channel = channel;
  retry_slot = none;
  seq_num = 0;
}

unfoldable pub new_publisher : {C : Type 0} → ℕ → C → TopicKeyExpr → Publisher C
new_publisher cdr_cap channel topic = record {
  topic = topic;
  locality = any;
  cdr_cap = cdr_cap;
  channel = channel;
  retry_slot = none;
  seq_num = 0;
}

-- `(now.as_micros() as i64).saturating_mul(1_000)` of a u64.
unfoldable pub timestamp : ℕ → ℕ
timestamp now =
    if ltb now (2 ^ 63)
    then min (now * 1_000) (2 ^ 63 - 1)
    else u64_size - min ((u64_size - now) * 1_000) (2 ^ 63)

-- What `try_drain_into` answers: the bytes that it copied and the numbers that go with them.
abbrev pub Drained : Type 0
Drained = List ℕ × ℕ × ℕ

-- `out_buf[..n].copy_from_slice(&data[..n])` with `n = data.len().min(out_buf.len())`.
abbrev pub copied : ℕ → List ℕ → List ℕ
copied out_size bytes = take (min (length bytes) out_size) bytes

-- `raw[..n]` after `serialize_with_header`.
unfoldable pub serialized : (shape : Shape) → Value shape → ℕ → Outcome Error (List ℕ)
serialized shape msg cdr_cap =
    map_err cdr (serialize_with_header shape msg (replicate cdr_cap 0)) >>= λ (w, n). ok w

unfoldable pub take_seq : {C : Type 0} → Publisher C → Publisher C
take_seq p = record p { seq_num = (p.seq_num + 1) % u64_size }

unfoldable pub stash_retry : {C : Type 0} → List ℕ → ℕ → ℕ → Publisher C → Publisher C
stash_retry bytes seq_num timestamp_ns p = record p {
  retry_slot = some (record {
    bytes = copied retry_cdr_cap bytes;
    seq_num = seq_num;
    timestamp_ns = timestamp_ns;
  });
}

-- Where a task that sends is: its message is in the queue, or it waits with it for a place.
pub data Sending : Type 0 where
  done : Sending
  waiting : CdrPayload → Sending

module _ (channel : Channel CdrPayload) where
  open channel use {State}

  abbrev pub offered : CdrPayload → Publisher State → Bool × State → Sending × Publisher State
  offered payload p (true, c) = (done, record p { channel = c })
  offered payload p (false, c) = (waiting payload, record p { channel = c })

  -- `self.channel.send(payload).await`, each time that the task is polled.
  unfoldable pub poll_send : CdrPayload → Publisher State → Sending × Publisher State
  poll_send payload p = offered payload p (channel.try_send payload p.channel)

  abbrev pub numbered_send : List ℕ → ℕ → Publisher State → Outcome Error Sending × Publisher State
  numbered_send bytes now p =
      let payload : CdrPayload = record {
        data_bytes = bytes;
        seq_num = p.seq_num;
        timestamp_ns = timestamp now;
      } in
      let (sending, p') = poll_send payload (take_seq p) in (ok sending, p')

  abbrev pub send_result :
      Outcome Error (List ℕ) → ℕ → Publisher State → Outcome Error Sending × Publisher State
  send_result (ok bytes) now p = numbered_send bytes now p
  send_result (err e) now p = (err e, p)
  send_result panic now p = (panic, p)

  -- `now` is the time in microseconds.
  unfoldable pub send :
      (shape : Shape) → Value shape → ℕ → Publisher State → Outcome Error Sending × Publisher State
  unfolding poll_send take_seq
  send shape msg now p = send_result (serialized shape msg p.cdr_cap) now p

  abbrev pub accepted : Bool → Outcome Error (Unit {0})
  accepted true = ok tt
  accepted false = err buffer_full

  abbrev pub try_send_result :
      Outcome Error (List ℕ) → Publisher State → Outcome Error (Unit {0}) × Publisher State
  try_send_result (ok bytes) p =
      let payload : CdrPayload = record { data_bytes = bytes; seq_num = 0; timestamp_ns = 0 } in
      let (b, c) = channel.try_send payload p.channel in (accepted b, record p { channel = c })
  try_send_result (err e) p = (err e, p)
  try_send_result panic p = (panic, p)

  unfoldable pub try_send :
      (shape : Shape) → Value shape → Publisher State → Outcome Error (Unit {0}) × Publisher State
  try_send shape msg p = try_send_result (serialized shape msg p.cdr_cap) p

  abbrev pub drained :
      ℕ → Publisher State → Option CdrPayload × State → Option Drained × Publisher State
  drained out_size p (some m, c) =
      (some (copied out_size m.data_bytes, m.seq_num, m.timestamp_ns), record p { channel = c })
  drained out_size p (none, c) = (none, record p { channel = c })

  abbrev pub retried : ℕ → Option RetryPayload → Publisher State → Option Drained × Publisher State
  retried out_size (some m) p =
      (some (copied out_size m.bytes, m.seq_num, m.timestamp_ns), record p { retry_slot = none })
  retried out_size none p = drained out_size p (channel.try_receive p.channel)

  -- The message that could not be sent goes first.
  unfoldable pub try_drain_into : ℕ → Publisher State → Option Drained × Publisher State
  try_drain_into out_size p = retried out_size p.retry_slot p
