-- ===== src/Sdk/Routing/Answers.antt =====
-- What `dispatch_frame` answers, on any bytes, and what the callbacks add to it.
use zenoh_ros2_nostd.Common.{
  ℕ, ◌≡◌, ◌≢◌, refl, List, [], ◌∷◌, Bool, true, false, Option, none, some, if◌then◌else◌, length,
  ltb, drop, Bool-cases, inl, inr, ◌++◌, ◌+◌, ◌%◌, ◌<◌, ◌≤◌, le→ltb, le→leb, length-append,
  drop_front, arith, Outcome, ok, err, panic,
}
use zenoh_ros2_nostd.Error.{Wire, connection_closed}
use zenoh_ros2_nostd.Error.Top.{Error, transport}
use zenoh_ros2_nostd.Transport.Codec.Header.{
  TransportMsgKind, parse_transport_msg_kind, init, open_msg, close, keep_alive, frame, fragment,
  other, decode_frame_header, decode_fragment_header,
}
use zenoh_ros2_nostd.Transport.Codec.Header.RoundTrip.{
  frame_header_image, decode_frame_header-image,
}
use zenoh_ros2_nostd.Transport.Vbyte.{u64_size}
use zenoh_ros2_nostd.Transport.Vbyte.Encode.{vbyte}
use zenoh_ros2_nostd.Transport.Vbyte.Decode.{decode_vbyte-vbyte}
use zenoh_ros2_nostd.Transport.Reader.{usize_size, read_with}
use zenoh_ros2_nostd.Transport.Slice.{decode_slice}
use zenoh_ros2_nostd.Sdk.Routing.Delivery.{frame_kind}
use zenoh_ros2_nostd.Transport.Codec.Put.{read_suffix, IncomingPut, decode_push_put}
use zenoh_ros2_nostd.Transport.Fragment.{feed}
use zenoh_ros2_nostd.Ros2.Channel.{Channel}
use zenoh_ros2_nostd.Ros2.Subscription.{SubMessage}
use zenoh_ros2_nostd.Sdk.Node.{SubscriberEntry, fragment_buf_size}
use zenoh_ros2_nostd.Sdk.Routing.{
  Inbox, handle_put, handle_assembled, handle_frame, handle_fragment, handle_kind, handle_bytes,
  dispatch_frame, dispatch_frame_with_callbacks,
}

-- Whether a frame is a Close.
abbrev pub is_close : TransportMsgKind → Bool
is_close close = true
is_close init = false
is_close open_msg = false
is_close keep_alive = false
is_close frame = false
is_close fragment = false
is_close (other id) = false

abbrev pub closes : List ℕ → Bool
closes [] = false
closes (header ∷ rest) = is_close (parse_transport_msg_kind header)

decode_push_put_overflow :
    (scope size : ℕ) (rest : List ℕ)
    → scope < u64_size
    → size < usize_size
    → usize_size ≤ length (vbyte size) + size
    → decode_push_put (0x3d ∷ (vbyte scope ++ (vbyte size ++ rest))) ≡ panic
unfolding decode_push_put read_suffix decode_slice read_with
decode_push_put_overflow scope size rest hk hn over =
    let same : size % usize_size ≡ size = omega arith in
    rw
      (
        decode_vbyte-vbyte scope (vbyte size ++ rest) hk,
        drop_front (vbyte scope) (vbyte size ++ rest),
        decode_vbyte-vbyte size rest (omega arith),
        same,
        le→leb usize_size (length (vbyte size) + size) over,
      )
      refl

module _ (channel : Channel SubMessage) (entries : List SubscriberEntry) where
  open channel use {State}

  abbrev Answer : Type 0
  Answer = Outcome Error (Unit {0}) × Inbox State

  -- What two ways to handle a frame have in common: the answer, the queues, the fragments.
  abbrev pub Same : Answer → Answer → Type 0
  Same r s = (r.0 ≡ s.0) × (r.1.store ≡ s.1.store) × (r.1.assembler ≡ s.1.assembler)

  put-Same :
      (r : Wire (Option (IncomingPut × ℕ))) (inbox : Inbox State)
      → Same (handle_put channel true entries r inbox) (handle_put channel false entries r inbox)
  unfolding handle_put
  put-Same (ok (some (put, n))) inbox = (refl, refl, refl)
  put-Same (ok none) inbox = (refl, refl, refl)
  put-Same (err e) inbox = (refl, refl, refl)
  put-Same panic inbox = (refl, refl, refl)

  assembled-Same :
      (r : Wire (Option (List ℕ))) (inbox : Inbox State)
      → Same
          (handle_assembled channel true entries r inbox)
          (handle_assembled channel false entries r inbox)
  unfolding handle_assembled
  assembled-Same (ok (some bytes)) inbox = put-Same (decode_push_put bytes) inbox
  assembled-Same (ok none) inbox = (refl, refl, refl)
  assembled-Same (err e) inbox = (refl, refl, refl)
  assembled-Same panic inbox = (refl, refl, refl)

  frame-Same :
      (bytes : List ℕ) (r : Wire (ℕ × Bool × ℕ)) (inbox : Inbox State)
      → Same
          (handle_frame channel true entries bytes r inbox)
          (handle_frame channel false entries bytes r inbox)
  unfolding handle_frame
  frame-Same bytes (ok (sn, reliable, body_pos)) inbox =
      elim (Bool-cases (ltb (length bytes) body_pos)) [
        | inl e ↦ rw e (refl, refl, refl)
        | inr e ↦ rw e (put-Same (decode_push_put (drop body_pos bytes)) inbox)
      ]
  frame-Same bytes (err e) inbox = (refl, refl, refl)
  frame-Same bytes panic inbox = (refl, refl, refl)

  fragment-Same :
      (bytes : List ℕ) (r : Wire (ℕ × Bool × Bool × ℕ)) (inbox : Inbox State)
      → Same
          (handle_fragment channel true entries bytes r inbox)
          (handle_fragment channel false entries bytes r inbox)
  unfolding handle_fragment
  fragment-Same bytes (ok (sn, reliable, more, body_pos)) inbox =
      let (answer, assembler) = feed fragment_buf_size inbox.assembler more (drop body_pos bytes) in
      elim (Bool-cases (ltb (length bytes) body_pos)) [
        | inl e ↦ rw e (refl, refl, refl)
        | inr e ↦ rw e (assembled-Same answer (record inbox { assembler = assembler }))
      ]
  fragment-Same bytes (err e) inbox = (refl, refl, refl)
  fragment-Same bytes panic inbox = (refl, refl, refl)

  kind-Same :
      (kind : TransportMsgKind) (bytes : List ℕ) (inbox : Inbox State)
      → Same
          (handle_kind channel true entries kind bytes inbox)
          (handle_kind channel false entries kind bytes inbox)
  unfolding handle_kind
  kind-Same frame bytes inbox = frame-Same bytes (decode_frame_header bytes) inbox
  kind-Same fragment bytes inbox = fragment-Same bytes (decode_fragment_header bytes) inbox
  kind-Same close bytes inbox = (refl, refl, refl)
  kind-Same init bytes inbox = (refl, refl, refl)
  kind-Same open_msg bytes inbox = (refl, refl, refl)
  kind-Same keep_alive bytes inbox = (refl, refl, refl)
  kind-Same (other id) bytes inbox = (refl, refl, refl)

  -- On any bytes, a node with callbacks answers, delivers and keeps fragments as one without.
  pub dispatch_frame_with_callbacks-Same :
      (bytes : List ℕ) (inbox : Inbox State)
      → Same
          (dispatch_frame_with_callbacks channel entries bytes inbox)
          (dispatch_frame channel entries bytes inbox)
  unfolding dispatch_frame dispatch_frame_with_callbacks handle_bytes
  dispatch_frame_with_callbacks-Same [] inbox = (refl, refl, refl)
  dispatch_frame_with_callbacks-Same (header ∷ rest) inbox =
      kind-Same (parse_transport_msg_kind header) (header ∷ rest) inbox

  -- No error comes out of the bytes of a frame.
  abbrev Passes : Outcome Error (Unit {0}) → Type 0
  Passes answer = (e : Error) → answer ≢ err e

  put-Passes :
      (r : Wire (Option (IncomingPut × ℕ))) (inbox : Inbox State)
      → Passes (handle_put channel false entries r inbox).0
  unfolding handle_put
  put-Passes (ok (some (put, n))) inbox e h = cc
  put-Passes (ok none) inbox e h = cc
  put-Passes (err d) inbox e h = cc
  put-Passes panic inbox e h = cc

  assembled-Passes :
      (r : Wire (Option (List ℕ))) (inbox : Inbox State)
      → Passes (handle_assembled channel false entries r inbox).0
  unfolding handle_assembled
  assembled-Passes (ok (some bytes)) inbox e h = put-Passes (decode_push_put bytes) inbox e h
  assembled-Passes (ok none) inbox e h = cc
  assembled-Passes (err d) inbox e h = cc
  assembled-Passes panic inbox e h = cc

  guarded-Passes :
      (out : Bool) (inbox : Inbox State) (answer : Answer)
      → Passes answer.0
      → Passes (if out then (panic, inbox) else answer).0
  guarded-Passes true inbox answer h e k = cc
  guarded-Passes false inbox answer h e k = h e k

  frame-Passes :
      (bytes : List ℕ) (r : Wire (ℕ × Bool × ℕ)) (inbox : Inbox State)
      → Passes (handle_frame channel false entries bytes r inbox).0
  unfolding handle_frame
  frame-Passes bytes (ok (sn, reliable, body_pos)) inbox e h =
      guarded-Passes (ltb (length bytes) body_pos) inbox _
        (put-Passes (decode_push_put (drop body_pos bytes)) inbox) e h
  frame-Passes bytes (err d) inbox e h = cc
  frame-Passes bytes panic inbox e h = cc

  fragment-Passes :
      (bytes : List ℕ) (r : Wire (ℕ × Bool × Bool × ℕ)) (inbox : Inbox State)
      → Passes (handle_fragment channel false entries bytes r inbox).0
  unfolding handle_fragment
  fragment-Passes bytes (ok (sn, reliable, more, body_pos)) inbox e h =
      let (answer, assembler) = feed fragment_buf_size inbox.assembler more (drop body_pos bytes) in
      guarded-Passes (ltb (length bytes) body_pos) inbox _
        (assembled-Passes answer (record inbox { assembler = assembler })) e h
  fragment-Passes bytes (err d) inbox e h = cc
  fragment-Passes bytes panic inbox e h = cc

  abbrev ClosesOnly : Bool → Answer → Inbox State → Type 0
  ClosesOnly c (answer, inbox') inbox =
      (c ≡ true → (answer ≡ err (transport connection_closed)) × (inbox' ≡ inbox))
      × (c ≡ false → Passes answer)

  kind-ClosesOnly :
      (kind : TransportMsgKind) (bytes : List ℕ) (inbox : Inbox State)
      → ClosesOnly (is_close kind) (handle_kind channel false entries kind bytes inbox) inbox
  unfolding handle_kind
  kind-ClosesOnly frame bytes inbox =
      (λ h. cc, λ h. frame-Passes bytes (decode_frame_header bytes) inbox)
  kind-ClosesOnly fragment bytes inbox =
      (λ h. cc, λ h. fragment-Passes bytes (decode_fragment_header bytes) inbox)
  kind-ClosesOnly close bytes inbox = (λ h. (refl, refl), λ h. cc)
  kind-ClosesOnly init bytes inbox = (λ h. cc, λ h e k. cc)
  kind-ClosesOnly open_msg bytes inbox = (λ h. cc, λ h e k. cc)
  kind-ClosesOnly keep_alive bytes inbox = (λ h. cc, λ h e k. cc)
  kind-ClosesOnly (other id) bytes inbox = (λ h. cc, λ h e k. cc)

  bytes-ClosesOnly :
      (bytes : List ℕ) (inbox : Inbox State)
      → ClosesOnly (closes bytes) (dispatch_frame channel entries bytes inbox) inbox
  unfolding dispatch_frame handle_bytes
  bytes-ClosesOnly [] inbox = (λ h. cc, λ h e k. cc)
  bytes-ClosesOnly (header ∷ rest) inbox =
      kind-ClosesOnly (parse_transport_msg_kind header) (header ∷ rest) inbox

  dispatch_frame-overflow :
      (sn scope size : ℕ) (reliable : Bool) (rest : List ℕ) (inbox : Inbox State)
      → sn < u64_size
      → scope < u64_size
      → size < usize_size
      → usize_size ≤ length (vbyte size) + size
      → dispatch_frame channel entries
          (frame_header_image sn reliable ++ (0x3d ∷ (vbyte scope ++ (vbyte size ++ rest))))
          inbox
        ≡ (panic, inbox)
  unfolding dispatch_frame handle_bytes handle_kind handle_frame handle_put
  dispatch_frame-overflow sn scope size reliable rest inbox hs hk hn over =
      let header = frame_header_image sn reliable in
      let body = 0x3d ∷ (vbyte scope ++ (vbyte size ++ rest)) in
      rw
        (
          frame_kind reliable,
          decode_frame_header-image sn reliable body hs,
          le→ltb (length (header ++ body)) (length header)
              (omega (arith, length-append header body)),
          drop_front header body,
          decode_push_put_overflow scope size rest hk hn over,
        )
        refl

  -- On any bytes, the error that `dispatch_frame` answers is connection_closed, and it answers it
  -- exactly for a Close, without a delivery: no other frame ends the session with an error. But a
  -- frame can make it panic: a Push in a Frame, of which the suffix announces a length that is so
  -- close to that of usize that it overflows with the length of its header, does.
  pub dispatch_frame-closes :
      (bytes : List ℕ) (sn scope size : ℕ) (reliable : Bool) (rest : List ℕ) (inbox : Inbox State)
      → sn < u64_size
      → scope < u64_size
      → size < usize_size
      → usize_size ≤ length (vbyte size) + size
      → let (answer, inbox') = dispatch_frame channel entries bytes inbox in
        (closes bytes ≡ true → (answer ≡ err (transport connection_closed)) × (inbox' ≡ inbox))
        × (closes bytes ≡ false → (e : Error) → answer ≢ err e)
        × (dispatch_frame channel entries
              (frame_header_image sn reliable ++ (0x3d ∷ (vbyte scope ++ (vbyte size ++ rest))))
              inbox
            ≡ (panic, inbox))
  dispatch_frame-closes bytes sn scope size reliable rest inbox hs hk hn over =
      let (closing, passing) = bytes-ClosesOnly bytes inbox in
      (closing, passing, dispatch_frame-overflow sn scope size reliable rest inbox hs hk hn over)
