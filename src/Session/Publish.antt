-- ===== src/Session/Publish.antt =====
-- What the calls of a session send, and what they leave in it.
use zenoh_ros2_nostd.Common.{
  ℕ, ◌+◌, ◌%◌, ◌≤◌, ◌<◌, ◌≡◌, refl, ap, ◌∙◌, append_assoc, List, ◌∷◌, ◌++◌, true, length,
  length-append, length-replicate, replicate, arith, ok, err,
}
use zenoh_ros2_nostd.Error.{frame_too_large}
use zenoh_ros2_nostd.Error.Top.{transport}
use zenoh_ros2_nostd.Transport.Link.{Link, Promises}
use zenoh_ros2_nostd.Transport.Frame.{write_frame}
use zenoh_ros2_nostd.Transport.Frame.RoundTrip.{
  frame_image, write_frame-sent, write_frame-ok, IsWritable,
}
use zenoh_ros2_nostd.Transport.Writer.{
  write_slice, write_slice-append, write_slice_fits, write_slice_full, Encoder, ◌⨾◌,
}
use zenoh_ros2_nostd.Transport.Vbyte.{u64_size}
use zenoh_ros2_nostd.Transport.Codec.Header.{encode_frame_header}
use zenoh_ros2_nostd.Transport.Codec.Header.RoundTrip.{
  frame_header_image, encode_frame_header-image, length-frame_header_image,
}
use zenoh_ros2_nostd.Transport.Codec.Put.RoundTrip.{
  push_image, length-push_image, encode_push_put-push_image,
}
use zenoh_ros2_nostd.Transport.Codec.Put.{encode_push_put}
use zenoh_ros2_nostd.Transport.Codec.Declare.{
  encode_declare_keyexpr, encode_declare_subscriber_mapped,
}
use zenoh_ros2_nostd.Transport.Codec.Declare.Image.{
  named_image, mapped_image, length-named_image, length-mapped_image,
  encode_declare_keyexpr-named_image, encode_declare_subscriber_mapped-mapped_image,
}
use zenoh_ros2_nostd.Session.{
  Session, send_reliable, put, next_sn_reliable, subscribe, declare_key_expr, take_key_id, u16_size,
}

-- A message in a reliable Frame with a sequence number.
abbrev pub reliable_image : ℕ → List ℕ → List ℕ
reliable_image sn message = frame_header_image sn true ++ message

-- The session after one more reliable frame.
abbrev pub numbered : {L : Type 0} → Session L → L → Session L
numbered s l = record s { link = l; sn_reliable = (s.sn_reliable + 1) % u64_size }

module _ (link : Link) (tx_size rx_size : ℕ) where
  open link use {State}

  framed :
      (sn : ℕ) (message : List ℕ)
      → sn < u64_size
      → (encode_frame_header sn true ⨾ write_slice message)
        ≡ write_slice (reliable_image sn message)
  framed sn message h = rw (encode_frame_header-image sn true h) (simp (write_slice-append))

  pub send_reliable-run :
      (message : Encoder) (bytes : List ℕ) (s : Session State)
      → message ≡ write_slice bytes
      → IsWritable link
      → s.sn_reliable < u64_size
      → length bytes + 11 ≤ tx_size
      → length bytes + 11 ≤ 0xffff
      → send_reliable link tx_size rx_size message s
        ≡ (ok tt, numbered s (write_frame link (reliable_image s.sn_reliable bytes) s.link).1)
  unfolding send_reliable next_sn_reliable
  send_reliable-run message bytes s e writable hs room short =
      let image = reliable_image s.sn_reliable bytes in
      let size : length image ≤ length bytes + 11 = omega (
        arith,
        length-append (frame_header_image s.sn_reliable true) bytes,
        length-frame_header_image s.sn_reliable true,
      ) in
      rw (
        e,
        framed s.sn_reliable bytes hs,
        write_slice_fits image (replicate tx_size 0)
            (omega (arith, length-replicate {A = ℕ} tx_size 0)),
        write_frame-ok link writable image s.link (omega arith),
      )

  send_reliable_full :
      (message : Encoder) (bytes : List ℕ) (s : Session State)
      → message ≡ write_slice bytes
      → s.sn_reliable < u64_size
      → tx_size < length (reliable_image s.sn_reliable bytes)
      → send_reliable link tx_size rx_size message s
        ≡ (err (transport frame_too_large), numbered s s.link)
  unfolding send_reliable next_sn_reliable
  send_reliable_full message bytes s e hs full = rw (
    e,
    framed s.sn_reliable bytes hs,
    write_slice_full (reliable_image s.sn_reliable bytes) (replicate tx_size 0)
        (omega (arith, length-replicate {A = ℕ} tx_size 0)),
  )

  -- A message that does not fit the transmit buffer, with its frame header, is refused: nothing is
  -- sent, the link is untouched, and the sequence number that it took is spent.
  pub put_full :
      (key payload : List ℕ) (s : Session State)
      → s.sn_reliable < u64_size
      → length key < u64_size
      → length payload < u64_size
      → tx_size < length (reliable_image s.sn_reliable (push_image key 0 payload))
      → put link tx_size rx_size key payload s
        ≡ (err (transport frame_too_large), numbered s s.link)
  unfolding put
  put_full key payload s hs hk hp full =
      send_reliable_full (encode_push_put key 0 payload) (push_image key 0 payload) s
        (encode_push_put-push_image key 0 payload hk hp) hs full

  module _ (p : Promises link) (writable : IsWritable link) where
    -- A reliable message is sent in one frame under the session's sequence number, which goes up by
    -- one, around the u64.
    pub send_reliable-sent :
        (message : Encoder) (bytes : List ℕ) (s : Session State)
        → message ≡ write_slice bytes
        → s.sn_reliable < u64_size
        → length bytes + 11 ≤ tx_size
        → length bytes + 11 ≤ 0xffff
        → let (answer, s') = send_reliable link tx_size rx_size message s in
          (answer ≡ ok tt)
          × (p.sent s'.link ≡ p.sent s.link ++ frame_image (reliable_image s.sn_reliable bytes))
          × (p.input s'.link ≡ p.input s.link)
          × (s' ≡ numbered s s'.link)
    send_reliable-sent message bytes s e hs room short =
        let image = reliable_image s.sn_reliable bytes in
        let run = send_reliable-run message bytes s e writable hs room short in
        let (sent, input) = write_frame-sent link p image s.link (
          write_frame-ok link writable image s.link (
            omega (
              arith,
              length-append (frame_header_image s.sn_reliable true) bytes,
              length-frame_header_image s.sn_reliable true,
            ))) in
        rw run (refl, sent, input, refl)

    -- `put` sends one frame with the session's next sequence number and the Push of the key and the
    -- payload, and changes nothing else in the session than that number, for a key and a payload
    -- that fit the transmit buffer and a link that fails no write.
    pub put-sent :
        (key payload : List ℕ) (s : Session State)
        → s.sn_reliable < u64_size
        → length key + length payload + 53 ≤ tx_size
        → tx_size ≤ 0xffff
        → let (answer, s') = put link tx_size rx_size key payload s in
          (answer ≡ ok tt)
          × (p.sent s'.link
              ≡ p.sent s.link
                ++ frame_image (reliable_image s.sn_reliable (push_image key 0 payload)))
          × (p.input s'.link ≡ p.input s.link)
          × (s' ≡ numbered s s'.link)
    unfolding put
    put-sent key payload s hs room short =
        send_reliable-sent (encode_push_put key 0 payload) (push_image key 0 payload) s
          (encode_push_put-push_image key 0 payload (omega arith) (omega arith)) hs
          (omega (arith, length-push_image key 0 payload))
          (omega (arith, length-push_image key 0 payload))

    -- `subscribe` sends two frames with two sequence numbers in a row, the declaration of the key
    -- and that of a subscriber which refers to it by number; the number is the next one of the
    -- session, and is what the call returns.
    pub subscribe-sent :
        (b : ℕ) (key : List ℕ) (s : Session State)
        → s.sn_reliable < u64_size
        → s.next_key_id < u16_size
        → length (b ∷ key) + 43 ≤ tx_size
        → tx_size ≤ 0xffff
        → let (answer, s') = subscribe link tx_size rx_size (b ∷ key) s in
          (answer ≡ ok s.next_key_id)
          × (p.sent s'.link
              ≡ p.sent s.link
                ++ (frame_image
                      (reliable_image s.sn_reliable (named_image 0x20 s.next_key_id (b ∷ key)))
                    ++ frame_image (
                        reliable_image
                          ((s.sn_reliable + 1) % u64_size)
                          (mapped_image 0x42 s.next_key_id s.next_key_id))))
          × (p.input s'.link ≡ p.input s.link)
          × (s'.sn_reliable ≡ (s.sn_reliable + 2) % u64_size)
          × (s'.next_key_id ≡ (s.next_key_id + 1) % u16_size)
    unfolding subscribe declare_key_expr take_key_id
    subscribe-sent b key s hs hi room short =
        let id = s.next_key_id in
        let s0 = record s { next_key_id = (id + 1) % u16_size } in
        let m1 = named_image 0x20 id (b ∷ key) in
        let m2 = mapped_image 0x42 id id in
        let e1 = encode_declare_keyexpr-named_image id b key (omega arith) (omega arith) in
        let (a1, sent1, input1, n1) =
          send_reliable-sent (encode_declare_keyexpr id (b ∷ key)) m1 s0 e1 hs
            (omega (arith, length-named_image 0x20 id (b ∷ key)))
            (omega (arith, length-named_image 0x20 id (b ∷ key))) in
        let s1 = (send_reliable link tx_size rx_size (encode_declare_keyexpr id (b ∷ key)) s0).1 in
        let sn1 : s1.sn_reliable ≡ (s.sn_reliable + 1) % u64_size = ap (λ t. t.sn_reliable) n1 in
        let (a2, sent2, input2, n2) =
          send_reliable-sent (encode_declare_subscriber_mapped id id) m2 s1
            (encode_declare_subscriber_mapped-mapped_image id id (omega arith) (omega arith))
            (omega arith) (omega (arith, length-mapped_image 0x42 id id))
            (omega (arith, length-mapped_image 0x42 id id)) in
        rw (a1, a2)
          (
            refl,
            sent2
                ∙ ap (λ n. p.sent s1.link ++ frame_image (reliable_image n m2)) sn1
                ∙ ap (λ t. t ++ frame_image (reliable_image ((s.sn_reliable + 1) % u64_size) m2))
                    sent1
                ∙ append_assoc (p.sent s.link) (frame_image (reliable_image s.sn_reliable m1))
                    (frame_image (reliable_image ((s.sn_reliable + 1) % u64_size) m2)),
            input2 ∙ input1,
            ap (λ t. t.sn_reliable) n2 ∙ omega arith,
            ap (λ t. t.next_key_id) n2 ∙ ap (λ t. t.next_key_id) n1,
          )
