-- ===== src/Ros2/Publisher/Pending.antt =====
-- What a publisher has still to send, as a list: the message that waits for another try, then the
-- queue.
use zenoh_ros2_nostd.Common.{
  ℕ, ◌+◌, ◌%◌, ◌≤◌, ◌<◌, ◌≡◌, refl, ap, ◌∙◌, append_assoc, sym, List, [], ◌∷◌, ◌++◌, Bool, true,
  false, Option, none, some, ok, err, length, take_all, min, arith,
}
use zenoh_ros2_nostd.Error.Top.{buffer_full}
use zenoh_ros2_nostd.Transport.Vbyte.{u64_size}
use zenoh_ros2_nostd.Cdr.{Shape, Value}
use zenoh_ros2_nostd.Ros2.Channel.{Channel, KeepsOrder}
use zenoh_ros2_nostd.Ros2.Publisher.{
  CdrPayload, RetryPayload, Publisher, Drained, done, waiting, copied, retry_cdr_cap, serialized,
  timestamp, take_seq, stash_retry, poll_send, send, try_send, try_drain_into, retried, drained,
  offered,
}

abbrev pub as_message : CdrPayload → Drained
as_message m = (m.data_bytes, m.seq_num, m.timestamp_ns)

abbrev pub retry_list : Option RetryPayload → List Drained
retry_list none = []
retry_list (some m) = (m.bytes, m.seq_num, m.timestamp_ns) ∷ []

abbrev pub messages : List CdrPayload → List Drained
messages [] = []
messages (m ∷ ms) = as_message m ∷ messages ms

-- A message as it fits a buffer of `size` bytes.
abbrev pub shortened : ℕ → Drained → Drained
shortened size (bytes, seq, ts) = (copied size bytes, seq, ts)

abbrev pub first : ℕ → List Drained → Option Drained
first size [] = none
first size (m ∷ ms) = some (shortened size m)

abbrev pub others : List Drained → List Drained
others [] = []
others (m ∷ ms) = ms

module _ (channel : Channel CdrPayload) (order : KeepsOrder channel) where
  open channel use {State}

  abbrev pub pending : Publisher State → List Drained
  pending p = retry_list p.retry_slot ++ messages (order.contents p.channel)

  retried-pending :
      (out_size : ℕ) (p : Publisher State) (slot : Option RetryPayload) (held : List CdrPayload)
      → p.retry_slot ≡ slot
      → order.contents p.channel ≡ held
      → let (answer, p') = retried channel out_size slot p in
        (answer ≡ first out_size (retry_list slot ++ messages held))
        × (pending p' ≡ others (retry_list slot ++ messages held))
  retried-pending out_size p (some m) held s e = (refl, ap messages e)
  retried-pending out_size p none [] s e =
      let (got, left) = order.try_receive_empty p.channel e in rw (got, s, left) (refl, refl)
  retried-pending out_size p none (m ∷ rest) s e =
      let (got, left) = order.try_receive-some m rest p.channel e in rw (got, s, left) (refl, refl)

  -- `try_drain_into` hands out the first message that is still to be sent, cut at the size of the
  -- caller's buffer, and leaves the others in their order; it answers nothing exactly where none is
  -- left.
  pub try_drain_into-pending :
      (out_size : ℕ) (p : Publisher State)
      → let (answer, p') = try_drain_into channel out_size p in
        (answer ≡ first out_size (pending p)) × (pending p' ≡ others (pending p))
  unfolding try_drain_into
  try_drain_into-pending out_size p =
      retried-pending out_size p p.retry_slot (order.contents p.channel) refl refl

  retry_slot-drained :
      (out_size : ℕ) (p : Publisher State) (answer : Option CdrPayload) (c : State)
      → (drained channel out_size p (answer, c)).1.retry_slot ≡ p.retry_slot
  retry_slot-drained out_size p (some m) c = refl
  retry_slot-drained out_size p none c = refl

  retry_slot-retried :
      (out_size : ℕ) (p : Publisher State) (slot : Option RetryPayload)
      → p.retry_slot ≡ slot
      → (retried channel out_size slot p).1.retry_slot ≡ none
  retry_slot-retried out_size p (some m) s = refl
  retry_slot-retried out_size p none s =
      let (answer, c) = channel.try_receive p.channel in retry_slot-drained out_size p answer c ∙ s

  -- A message that was taken and could not be sent goes back to the front with `stash_retry`, and
  -- what is still to be sent is what it was before, for a message that fits the caller's buffer and
  -- the place for another try.
  pub stash_retry-try_drain_into :
      (out_size : ℕ) (p : Publisher State) (bytes : List ℕ) (seq ts : ℕ) (rest : List Drained)
      → pending p ≡ (bytes, seq, ts) ∷ rest
      → length bytes ≤ out_size
      → length bytes ≤ retry_cdr_cap
      → let (answer, p') = try_drain_into channel out_size p in
        (answer ≡ some (bytes, seq, ts)) × (pending (stash_retry bytes seq ts p') ≡ pending p)
  stash_retry-try_drain_into out_size p bytes seq ts rest e fits small =
      let (answer, left) = try_drain_into-pending out_size p in
      let p' = (try_drain_into channel out_size p).1 in
      let slot : p'.retry_slot ≡ none =
        unfold try_drain_into in retry_slot-retried out_size p p.retry_slot refl in
      let tail : messages (order.contents p'.channel) ≡ rest =
        ap (λ t. retry_list t ++ messages (order.contents p'.channel)) (sym slot)
        ∙ left
        ∙ ap others e in
      (
        answer
            ∙ ap (first out_size) e
            ∙ ap (λ b. some (b, seq, ts))
                (take_all (min (length bytes) out_size) bytes (omega arith)),
        unfold stash_retry in
            ap (λ b. (b, seq, ts) ∷ messages (order.contents p'.channel))
              (take_all (min (length bytes) retry_cdr_cap) bytes (omega arith))
            ∙ ap (◌∷◌ (bytes, seq, ts)) tail
            ∙ sym e,
      )

  messages-append : (xs ys : List CdrPayload) → messages (xs ++ ys) ≡ messages xs ++ messages ys
  messages-append [] ys = refl
  messages-append (x ∷ xs) ys = ap (◌∷◌ (as_message x)) (messages-append xs ys)

  seq_num-offered :
      (m : CdrPayload) (p : Publisher State) (b : Bool) (c : State)
      → (offered channel m p (b, c)).1.seq_num ≡ p.seq_num
  seq_num-offered m p true c = refl
  seq_num-offered m p false c = refl

  grown :
      (p : Publisher State) (m : CdrPayload)
      → length (order.contents p.channel) < order.capacity p.channel
      → retry_list p.retry_slot ++ messages (order.contents (channel.try_send m p.channel).1)
        ≡ pending p ++ (as_message m ∷ [])
  grown p m room =
      rw ((order.try_send-room m p.channel room).1, messages-append)
        (sym (append_assoc (retry_list p.retry_slot) (messages (order.contents p.channel)) _))

  -- A message that serializes is sent with the publisher's next number, which goes up by one around
  -- the i64, and the time. It is the last that is still to be sent then, where the queue has a
  -- place; where it has none, the task waits with it, and what is still to be sent stays.
  pub send-pending :
      (shape : Shape) (msg : Value shape) (now : ℕ) (p : Publisher State) (bytes : List ℕ)
      → serialized shape msg p.cdr_cap ≡ ok bytes
      → let (answer, p') = send channel shape msg now p in
        let m : CdrPayload = record {
          data_bytes = bytes;
          seq_num = p.seq_num;
          timestamp_ns = timestamp now;
        } in
        (length (order.contents p.channel) < order.capacity p.channel
          → (answer ≡ ok done) × (pending p' ≡ pending p ++ (as_message m ∷ [])))
        × (order.capacity p.channel ≤ length (order.contents p.channel)
            → (answer ≡ ok (waiting m)) × (pending p' ≡ pending p))
        × (p'.seq_num ≡ (p.seq_num + 1) % u64_size)
  unfolding send poll_send take_seq
  send-pending shape msg now p bytes e =
      let m : CdrPayload = record {
        data_bytes = bytes;
        seq_num = p.seq_num;
        timestamp_ns = timestamp now;
      } in
      rw e (
        λ room. rw ((order.try_send-room m p.channel room).0) (refl, grown p m room),
        λ full.
            let (refused, same) = order.try_send_full m p.channel full in
            rw (refused, same) (refl, refl),
        let (b, c) = channel.try_send m p.channel in seq_num-offered m (take_seq p) b c,
      )

  -- `try_send` never waits: a message that serializes is the last that is still to be sent, with
  -- number 0 and time 0 and without a number of the publisher's, or the call fails with buffer_full
  -- and what is still to be sent stays.
  pub try_send-pending :
      (shape : Shape) (msg : Value shape) (p : Publisher State) (bytes : List ℕ)
      → serialized shape msg p.cdr_cap ≡ ok bytes
      → let (answer, p') = try_send channel shape msg p in
        (length (order.contents p.channel) < order.capacity p.channel
          → (answer ≡ ok tt) × (pending p' ≡ pending p ++ ((bytes, 0, 0) ∷ [])))
        × (order.capacity p.channel ≤ length (order.contents p.channel)
            → (answer ≡ err buffer_full) × (pending p' ≡ pending p))
        × (p'.seq_num ≡ p.seq_num)
  unfolding try_send
  try_send-pending shape msg p bytes e =
      let m : CdrPayload = record { data_bytes = bytes; seq_num = 0; timestamp_ns = 0 } in
      rw e (
        λ room. rw ((order.try_send-room m p.channel room).0) (refl, grown p m room),
        λ full.
            let (refused, same) = order.try_send_full m p.channel full in
            rw (refused, same) (refl, refl),
        refl,
      )
