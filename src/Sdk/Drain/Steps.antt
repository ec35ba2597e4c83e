-- ===== src/Sdk/Drain/Steps.antt =====
-- The steps of `drain_publishers` on a link that fails no write.
use zenoh_ros2_nostd.Common.{
  ℕ, ◌+◌, ◌-◌, ◌%◌, ◌≤◌, ◌<◌, ◌≡◌, refl, List, ◌∷◌, ◌++◌, true, false, Bool-cases, inl, inr, some,
  length, length-append, length-replicate, replicate, le→ltb, lt→ltb, arith, ok,
}
use zenoh_ros2_nostd.Transport.Link.{Link}
use zenoh_ros2_nostd.Transport.Frame.{write_frame}
use zenoh_ros2_nostd.Transport.Frame.RoundTrip.{write_frame-ok, IsWritable}
use zenoh_ros2_nostd.Transport.Writer.{write_slice_fits}
use zenoh_ros2_nostd.Transport.Vbyte.{u64_size}
use zenoh_ros2_nostd.Transport.Vbyte.Encode.{vbyte, groups}
use zenoh_ros2_nostd.Transport.Slice.RoundTrip.{slice_image, length-slice_image}
use zenoh_ros2_nostd.Transport.Protocol.{ZenohId}
use zenoh_ros2_nostd.Transport.Codec.Attachment.{attachment}
use zenoh_ros2_nostd.Transport.Codec.Attachment.Length.{length-attachment}
use zenoh_ros2_nostd.Transport.Codec.Header.RoundTrip.{
  frame_header_image, encode_frame_header-image, length-frame_header_image,
}
use zenoh_ros2_nostd.Transport.Codec.Put.Attached.{
  attached_image, attached_tail, encode_push_put_with_attachment-attached_image,
}
use zenoh_ros2_nostd.Ros2.Channel.{Channel}
use zenoh_ros2_nostd.Ros2.Locality.{is_remote}
use zenoh_ros2_nostd.Ros2.Publisher.{CdrPayload, Drained}
use zenoh_ros2_nostd.Ros2.Subscription.{SubMessage}
use zenoh_ros2_nostd.Sdk.World.{with_link, with_node}
use zenoh_ros2_nostd.Sdk.Drain.{
  Batch, Machine, msg_est, flush, start_batch, open_batch, append_message, send_message, send_local,
}

two_groups : (v : ℕ) → v < 16_384 → length (vbyte v) ≤ 2
unfolding groups
two_groups v h = ground arith

-- A message in a batch.
abbrev pub image : List ℕ → ZenohId → Drained → List ℕ
image ke gid m = attached_image ke m.0 m.1 m.2 gid

-- The estimate of the source is enough, for a key and a message of less than 16384 bytes.
pub length-image :
    (ke : List ℕ) (gid : ZenohId) (m : Drained)
    → length ke < 16_384
    → length m.0 < 16_384
    → length (image ke gid m) ≤ msg_est ke m
length-image ke gid m hk hm =
    let extra = attachment m.1 m.2 gid in
    omega (
      arith,
      length-append (vbyte 0) (slice_image ke ++ (0x81 ∷ attached_tail extra m.0)),
      length-append (slice_image ke) (0x81 ∷ attached_tail extra m.0),
      length-append (slice_image extra) (slice_image m.0),
      length-slice_image ke,
      length-slice_image extra,
      length-slice_image m.0,
      length-attachment m.1 m.2 gid,
      two_groups 0 (omega arith),
      two_groups (length ke) hk,
      two_groups (length m.0) hm,
      two_groups (length extra) (omega (arith, length-attachment m.1 m.2 gid)),
    )

-- A batch that holds messages.
abbrev pub begun : List ℕ → Drained → Batch
begun bytes m = record { bytes = bytes; started = true; last = m }

module _ (link : Link) (pubs : Channel CdrPayload) (subs : Channel SubMessage) where
  abbrev W : Type 0
  W = Machine link pubs subs

  abbrev pub next_sn : W → W
  next_sn w = with_node (record w.node { sn = (w.node.sn + 1) % u64_size }) w

  pub start_batch-run :
      (m : Drained) (w : W)
      → w.node.sn < u64_size
      → start_batch link pubs subs m w ≡ (
        ok (record { bytes = frame_header_image w.node.sn true; started = true; last = m }),
        next_sn w,
      )
  unfolding start_batch
  start_batch-run m w h =
      let header = frame_header_image w.node.sn true in
      rw
        (
          encode_frame_header-image w.node.sn true h,
          write_slice_fits header (replicate 1_024 0) (
              omega (
                arith,
                length-frame_header_image w.node.sn true,
                length-replicate {A = ℕ} 1_024 0,
              )),
        )
        refl

  pub append_message-run :
      (ke : List ℕ) (m : Drained) (batch : Batch) (w : W)
      → length ke < 16_384
      → length m.0 < 16_384
      → length batch.bytes + msg_est ke m ≤ 1_024
      → append_message link pubs subs ke m batch w ≡ (
        ok (record { bytes = batch.bytes ++ image ke w.node.gid m; started = true; last = m }),
        w,
      )
  unfolding append_message
  append_message-run ke m batch w hk hm room =
      rw
        (
          encode_push_put_with_attachment-attached_image ke m.0 m.1 m.2 w.node.gid (omega arith)
              (omega arith),
          write_slice_fits (image ke w.node.gid m) (replicate (1_024 - length batch.bytes) 0) (
              omega (
                arith,
                length-image ke w.node.gid m hk hm,
                length-replicate {A = ℕ} (1_024 - length batch.bytes) 0,
              )),
        )
        refl

  pub flush-run :
      (address : ℕ) (m : Drained) (bytes : List ℕ) (w : W)
      → IsWritable link
      → length bytes ≤ 0xffff
      → flush link pubs subs address m bytes w
        ≡ (ok tt, with_link (write_frame link bytes w.node.link).1 w)
  unfolding flush
  flush-run address m bytes w writable short =
      rw (write_frame-ok link writable bytes w.node.link short) refl

  pub send_message_new :
      (address : ℕ) (ke : List ℕ) (m l : Drained) (bytes : List ℕ) (w : W)
      → w.node.sn < u64_size
      → length ke < 256 + 1
      → length m.0 ≤ 512
      → send_message link pubs subs address
          (some ke)
          m
          (record { bytes = bytes; started = false; last = l })
          w
        ≡ (ok (begun (frame_header_image w.node.sn true ++ image ke w.node.gid m) m), next_sn w)
  unfolding send_message open_batch
  send_message_new address ke m l bytes w hs hk hm =
      rw
        (
          start_batch-run m w hs,
          append_message-run ke m (begun (frame_header_image w.node.sn true) m) (next_sn w)
              (omega arith) (omega arith) (omega (arith, length-frame_header_image w.node.sn true)),
        )
        refl

  pub send_message_fits :
      (address : ℕ) (ke : List ℕ) (m l : Drained) (bytes : List ℕ) (w : W)
      → length ke < 256 + 1
      → length m.0 ≤ 512
      → length bytes + msg_est ke m ≤ 1_024
      → send_message link pubs subs address (some ke) m (begun bytes l) w
        ≡ (ok (begun (bytes ++ image ke w.node.gid m) m), w)
  unfolding send_message open_batch
  send_message_fits address ke m l bytes w hk hm room =
      rw
        (
          le→ltb 1_024 (length bytes + msg_est ke m) room,
          append_message-run ke m (begun bytes l) w (omega arith) (omega arith) room,
        )
        refl

  pub send_message_full :
      (address : ℕ) (ke : List ℕ) (m l : Drained) (bytes : List ℕ) (w : W)
      → IsWritable link
      → w.node.sn < u64_size
      → length ke < 256 + 1
      → length m.0 ≤ 512
      → length bytes ≤ 1_024
      → 1_024 < length bytes + msg_est ke m
      → send_message link pubs subs address (some ke) m (begun bytes l) w ≡ (
        ok (begun (frame_header_image w.node.sn true ++ image ke w.node.gid m) m),
        next_sn (with_link (write_frame link bytes w.node.link).1 w),
      )
  unfolding send_message open_batch
  send_message_full address ke m l bytes w writable hs hk hm small full =
      let w1 = with_link (write_frame link bytes w.node.link).1 w in
      rw
        (
          lt→ltb 1_024 (length bytes + msg_est ke m) full,
          flush-run address m bytes w writable (omega arith),
          start_batch-run m w1 hs,
          append_message-run ke m (begun (frame_header_image w.node.sn true) m) (next_sn w1)
              (omega arith) (omega arith) (omega (arith, length-frame_header_image w.node.sn true)),
        )
        refl

  -- Local dispatch leaves the node and the publishers.
  pub send_local-same :
      (address : ℕ) (m : Drained) (w : W)
      → let w' = (send_local link pubs subs address m w).1 in
        (w'.node ≡ w.node) × (w'.publishers ≡ w.publishers)
  unfolding send_local
  send_local-same address m w = elim (Bool-cases (is_remote (w.publishers address).locality)) [
    | inl e ↦ rw e (refl, refl)
    | inr e ↦ rw e (refl, refl)
  ]
