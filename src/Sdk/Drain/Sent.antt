-- ===== src/Sdk/Drain/Sent.antt =====
-- `drain_publishers` for one publisher, from its queue to the link.
use zenoh_ros2_nostd.Common.{
  ℕ, zero, suc, ◌+◌, ◌%◌, ◌≤◌, ◌<◌, ◌≡◌, refl, ap, sym, ◌∙◌, append-nil, List, [], ◌∷◌, ◌++◌, All,
  true, false, length, length-append, length-take, min, arith, Outcome, ok,
}
use zenoh_ros2_nostd.Error.Top.{Error}
use zenoh_ros2_nostd.Transport.Link.{Link, Promises, bind_outcome}
use zenoh_ros2_nostd.Transport.Frame.RoundTrip.{IsWritable}
use zenoh_ros2_nostd.Transport.Vbyte.{u64_size}
use zenoh_ros2_nostd.Transport.Codec.Header.RoundTrip.{
  frame_header_image, length-frame_header_image,
}
use zenoh_ros2_nostd.Ros2.Channel.{Channel, KeepsOrder}
use zenoh_ros2_nostd.Ros2.Locality.{is_session_local}
use zenoh_ros2_nostd.Ros2.Keyexpr.{to_key_expr}
use zenoh_ros2_nostd.Ros2.Publisher.{CdrPayload, Drained, try_drain_into}
use zenoh_ros2_nostd.Ros2.Publisher.Pending.{pending, shortened, others, try_drain_into-pending}
use zenoh_ros2_nostd.Ros2.Subscription.{SubMessage}
use zenoh_ros2_nostd.Sdk.Statics.{update_same}
use zenoh_ros2_nostd.Sdk.World.{with_publisher}
use zenoh_ros2_nostd.Sdk.Drain.{Machine, no_batch, drain_publisher}
use zenoh_ros2_nostd.Sdk.Drain.Steps.{image, length-image, next_sn, begun, send_message_new}
use zenoh_ros2_nostd.Sdk.Drain.Batches.{shorts, concat, framed, batch_image, batches}
use zenoh_ros2_nostd.Sdk.Drain.Frames.{
  taken, loop, finished, loop_empty, loop_next, held-taken, loop-Carried,
}

module _ (link : Link) (p : Promises link) (writable : IsWritable link) (pubs : Channel CdrPayload)
    (order : KeepsOrder pubs) (subs : Channel SubMessage) (address : ℕ) where
  abbrev W : Type 0
  W = Machine link pubs subs

  abbrev waiting : W → List Drained
  waiting w = pending pubs order (w.publishers address)

  -- What was held is sent in frames with numbers in a row.
  abbrev pub AllSent : List ℕ → W → Outcome Error (Unit {0}) × W → Type 0
  AllSent ke w r =
      (groups : List (List Drained)) × (r.0 ≡ ok tt)
      × (waiting r.1 ≡ [])
      × (concat groups ≡ shorts (waiting w))
      × All (λ b. length b ≤ 1_024) (batches ke w.node.gid w.node.sn groups)
      × All (λ g. 1 ≤ length g) groups
      × (p.sent r.1.node.link
          ≡ p.sent w.node.link ++ framed (batches ke w.node.gid w.node.sn groups))

  run_loop : (fuel : ℕ) (ke : List ℕ) → W → Outcome Error (Unit {0}) × W
  run_loop fuel ke w =
      finished ke w.node.gid link p writable pubs order subs address
        (loop ke w.node.gid link p writable pubs order subs address fuel no_batch w)

  run_loop-AllSent :
      (fuel : ℕ) (ke : List ℕ) (msgs : List Drained) (w : W)
      → waiting w ≡ msgs
      → length msgs < fuel
      → length ke ≤ 256
      → w.node.sn < u64_size
      → AllSent ke w (run_loop fuel ke w)
  unfolding run_loop
  run_loop-AllSent zero ke msgs w e h hk hs = absurd (omega arith)
  run_loop-AllSent (suc fuel) ke [] w e h hk hs =
      let gid = w.node.gid in
      let p1 = (try_drain_into pubs 512 (w.publishers address)).1 in
      let step : finished ke gid link p writable pubs order subs address
            (loop ke gid link p writable pubs order subs address (suc fuel) no_batch w)
          ≡ (ok tt, with_publisher address p1 w) =
        ap (finished ke gid link p writable pubs order subs address)
          (loop_empty ke gid link p writable pubs order subs address fuel no_batch w e) in
      (
        [],
        ap (λ r. r.0) step,
        ap (λ r. waiting r.1) step
            ∙ ap (pending pubs order) (update_same w.publishers address p1)
            ∙ (try_drain_into-pending pubs order 512 (w.publishers address)).1
            ∙ ap others e,
        sym (ap shorts e),
        tt,
        tt,
        ap (λ r. p.sent r.1.node.link) step ∙ sym (append-nil (p.sent w.node.link)),
      )
  run_loop-AllSent (suc fuel) ke (m ∷ rest) w e h hk hs =
      let gid = w.node.gid in
      let sn = w.node.sn in
      let m1 = shortened 512 m in
      let w2 = taken ke gid link p writable pubs order subs address m1 w in
      let w3 = next_sn link pubs subs w2 in
      let short : length m1.0 ≤ 512 = omega (arith, length-take (min (length m.0) 512) m.0) in
      let (node, left) = held-taken ke gid link p writable pubs order subs address w m rest e in
      let sn2 : w2.node.sn ≡ sn = ap (λ n. n.sn) node in
      let gid2 : w2.node.gid ≡ gid = ap (λ n. n.gid) node in
      let run =
        send_message_new link pubs subs address ke m1 ([], 0, 0) [] w2 (omega (arith, sn2))
          (omega arith) short in
      let begun_here : frame_header_image w2.node.sn true ++ image ke w2.node.gid m1
          ≡ batch_image ke gid sn (m1 ∷ []) =
        ap (λ g. frame_header_image w2.node.sn true ++ image ke g m1) gid2
        ∙ ap (λ k. frame_header_image k true ++ image ke gid m1) sn2
        ∙ ap (λ t. frame_header_image sn true ++ t) (sym (append-nil (image ke gid m1))) in
      let go = loop ke gid link p writable pubs order subs address fuel in
      let step : finished ke gid link p writable pubs order subs address
            (loop ke gid link p writable pubs order subs address (suc fuel) no_batch w)
          ≡ finished ke gid link p writable pubs order subs address
              (go (begun (batch_image ke gid sn (m1 ∷ [])) m1) w3) =
        ap (finished ke gid link p writable pubs order subs address) (
          loop_next ke gid link p writable pubs order subs address fuel no_batch w m rest e
          ∙ ap (λ r. bind_outcome r.0 r.1 go) run
          ∙ ap (λ b. go (begun b m1) w3) begun_here) in
      let small : length (batch_image ke gid sn (m1 ∷ [])) ≤ 1_024 = omega (
        arith,
        ap length begun_here,
        length-append (frame_header_image w2.node.sn true) (image ke w2.node.gid m1),
        length-frame_header_image w2.node.sn true,
        length-image ke w2.node.gid m1 (omega arith) (omega arith),
      ) in
      let (g, gs, answer, none_left, all, fit, filled, sent) =
        loop-Carried ke gid link p writable pubs order subs address fuel rest sn (m1 ∷ []) m1 w3
          left (omega arith) hk gid2 (ap (λ k. (k + 1) % u64_size) sn2) small (omega arith) in
      (
        g ∷ gs,
        ap (λ r. r.0) step ∙ answer,
        ap (λ r. waiting r.1) step ∙ none_left,
        all ∙ sym (ap shorts e),
        fit,
        filled,
        ap (λ r. p.sent r.1.node.link) step
            ∙ sent
            ∙ ap (λ n. p.sent n.link ++ framed (batches ke gid sn (g ∷ gs))) node,
      )

  -- What a publisher for the network holds is all sent, cut at 512 bytes a message: in its order, in
  -- frames of at most 1024 bytes with one or more messages each, under consecutive sequence numbers;
  -- and nothing is held then. The link fails no write, the key expression is one that the crate
  -- builds, and one round more than there are messages is enough.
  pub drain_publisher-AllSent :
      (fuel : ℕ) (ke : List ℕ) (w : W)
      → is_session_local (w.publishers address).locality ≡ false
      → to_key_expr (w.publishers address).topic ≡ ok ke
      → length ke ≤ 256
      → length (waiting w) < fuel
      → w.node.sn < u64_size
      → AllSent ke w (drain_publisher link pubs subs fuel address w)
  unfolding drain_publisher
  drain_publisher-AllSent fuel ke w network key hk h hs =
      rw (network, key) (unfold run_loop in run_loop-AllSent fuel ke (waiting w) w refl h hk hs)
