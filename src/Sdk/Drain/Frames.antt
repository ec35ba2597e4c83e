-- ===== src/Sdk/Drain/Frames.antt =====
-- What `drain_publishers` sends for one publisher, against the list of its messages.
use zenoh_ros2_nostd.Common.{
  ℕ, zero, suc, ◌+◌, ◌%◌, ◌≤◌, ◌<◌, ◌≡◌, refl, ap, sym, ◌∙◌, append-nil, append_assoc, List, [],
  ◌∷◌, ◌++◌, All, true, Bool-cases, inl, inr, some, length, length-append, length-take, min, ltb,
  ltb→lt, ltb→le, if◌then◌else◌, arith, Outcome, ok,
}
use zenoh_ros2_nostd.Error.Top.{Error}
use zenoh_ros2_nostd.Transport.Link.{Link, Promises, Io, bind_outcome, pure}
use zenoh_ros2_nostd.Transport.Frame.{write_frame}
use zenoh_ros2_nostd.Transport.Frame.RoundTrip.{
  frame_image, write_frame-sent, write_frame-ok, IsWritable,
}
use zenoh_ros2_nostd.Transport.Vbyte.{u64_size}
use zenoh_ros2_nostd.Transport.Protocol.{ZenohId}
use zenoh_ros2_nostd.Transport.Codec.Header.RoundTrip.{
  frame_header_image, length-frame_header_image,
}
use zenoh_ros2_nostd.Ros2.Channel.{Channel, KeepsOrder}
use zenoh_ros2_nostd.Ros2.Publisher.{CdrPayload, Drained, try_drain_into}
use zenoh_ros2_nostd.Ros2.Publisher.Pending.{
  pending, shortened, first, others, try_drain_into-pending,
}
use zenoh_ros2_nostd.Ros2.Subscription.{SubMessage}
use zenoh_ros2_nostd.Sdk.Statics.{update_same}
use zenoh_ros2_nostd.Sdk.World.{with_link, with_publisher}
use zenoh_ros2_nostd.Sdk.Drain.{
  Batch, Machine, msg_est, flush, send_message, send_local, drain_loop,
}
use zenoh_ros2_nostd.Sdk.Drain.Steps.{
  image, length-image, next_sn, begun, send_message_fits, send_message_full, send_local-same,
  flush-run,
}
use zenoh_ros2_nostd.Sdk.Drain.Batches.{
  shorts, concat, framed, batch_image, batches, batch_image-append,
}

module _ (ke : List ℕ) (gid : ZenohId) where
  module _ (link : Link) (p : Promises link) (writable : IsWritable link)
      (pubs : Channel CdrPayload) (order : KeepsOrder pubs) (subs : Channel SubMessage)
      (address : ℕ) where
    abbrev pub W : Type 0
    W = Machine link pubs subs

    abbrev pub held : W → List Drained
    held w = pending pubs order (w.publishers address)

    -- The machine with a message taken and delivered within the node.
    abbrev pub taken : Drained → W → W
    taken m w =
        (send_local link pubs subs address m
          (with_publisher address (try_drain_into pubs 512 (w.publishers address)).1 w)).1

    abbrev pub loop : ℕ → Batch → Io W Error Batch
    loop fuel batch = drain_loop link pubs subs fuel address (some ke) batch

    pub loop_empty :
        (fuel : ℕ) (batch : Batch) (w : W)
        → held w ≡ []
        → loop (suc fuel) batch w
          ≡ (ok batch, with_publisher address (try_drain_into pubs 512 (w.publishers address)).1 w)
    unfolding drain_loop
    loop_empty fuel batch w e =
        let (answer, left) = try_drain_into-pending pubs order 512 (w.publishers address) in
        rw (drain_loop, answer ∙ ap (first 512) e) refl

    pub loop_next :
        (fuel : ℕ) (batch : Batch) (w : W) (m : Drained) (rest : List Drained)
        → held w ≡ m ∷ rest
        → let w2 = taken (shortened 512 m) w in
          let (o, w3) = send_message link pubs subs address (some ke) (shortened 512 m) batch w2 in
          loop (suc fuel) batch w ≡ bind_outcome o w3 (loop fuel)
    unfolding drain_loop
    loop_next fuel batch w m rest e =
        let (answer, left) = try_drain_into-pending pubs order 512 (w.publishers address) in
        rw (drain_loop, answer ∙ ap (first 512) e) (unfold send_local in refl)

    -- The flush behind the loop.
    abbrev pub finish : Batch → Io W Error (Unit {0})
    finish batch =
        if batch.started then flush link pubs subs address batch.last batch.bytes else pure (ok tt)

    abbrev pub finished : Outcome Error Batch × W → Outcome Error (Unit {0}) × W
    finished (o, w) = bind_outcome o w finish

    abbrev pub Small : List ℕ → Type 0
    Small b = length b ≤ 1_024

    -- A group is not empty.
    abbrev pub Some : List Drained → Type 0
    Some g = 1 ≤ length g

    -- Everything was sent: the messages of the batch so far and those that were held, in groups of
    -- one frame each, in their order.
    abbrev pub Carried : W → ℕ → List Drained → List Drained → Outcome Error (Unit {0}) × W → Type 0
    Carried w sn cur msgs r =
        (g : List Drained) × (gs : List (List Drained)) × (r.0 ≡ ok tt)
        × (held r.1 ≡ [])
        × (concat (g ∷ gs) ≡ cur ++ shorts msgs)
        × All Small (batches ke gid sn (g ∷ gs))
        × All Some (g ∷ gs)
        × (p.sent r.1.node.link ≡ p.sent w.node.link ++ framed (batches ke gid sn (g ∷ gs)))

    pub held-taken :
        (w : W) (m : Drained) (rest : List Drained)
        → held w ≡ m ∷ rest
        → ((taken (shortened 512 m) w).node ≡ w.node) × (held (taken (shortened 512 m) w) ≡ rest)
    held-taken w m rest e =
        let p1 = (try_drain_into pubs 512 (w.publishers address)).1 in
        let w1 = with_publisher address p1 w in
        let (node, pubs_same) = send_local-same link pubs subs address (shortened 512 m) w1 in
        (
          node,
          ap (λ s. pending pubs order (s address)) pubs_same
              ∙ ap (pending pubs order) (update_same w.publishers address p1)
              ∙ (try_drain_into-pending pubs order 512 (w.publishers address)).1
              ∙ ap others e,
        )

    flush_all :
        (bytes : List ℕ) (m : Drained) (w : W)
        → length bytes ≤ 1_024
        → let r = flush link pubs subs address m bytes w in
          (r.0 ≡ ok tt)
          × (r.1.publishers ≡ w.publishers)
          × (p.sent r.1.node.link ≡ p.sent w.node.link ++ frame_image bytes)
    flush_all bytes m w small =
        let run = flush-run link pubs subs address m bytes w writable (omega arith) in
        (
          ap (λ r. r.0) run,
          ap (λ r. r.1.publishers) run,
          ap (λ r. p.sent r.1.node.link) run
              ∙ (write_frame-sent link p bytes w.node.link
                  (write_frame-ok link writable bytes w.node.link (omega arith))).0,
        )

    end-Carried :
        (fuel sn : ℕ) (cur : List Drained) (l : Drained) (w : W)
        → held w ≡ []
        → length (batch_image ke gid sn cur) ≤ 1_024
        → 1 ≤ length cur
        → Carried w sn cur [] (finished (loop (suc fuel) (begun (batch_image ke gid sn cur) l) w))
    end-Carried fuel sn cur l w e small full =
        let p1 = (try_drain_into pubs 512 (w.publishers address)).1 in
        let w1 = with_publisher address p1 w in
        let bytes = batch_image ke gid sn cur in
        let step : finished (loop (suc fuel) (begun bytes l) w)
            ≡ flush link pubs subs address l bytes w1 =
          ap finished (loop_empty fuel (begun bytes l) w e) in
        let (answer, kept, sent) = flush_all bytes l w1 small in
        let none_left : pending pubs order (w1.publishers address) ≡ [] =
          ap (pending pubs order) (update_same w.publishers address p1)
          ∙ (try_drain_into-pending pubs order 512 (w.publishers address)).1
          ∙ ap others e in
        (
          cur,
          [],
          ap (λ r. r.0) step ∙ answer,
          ap (λ r. held r.1) step ∙ ap (λ s. pending pubs order (s address)) kept ∙ none_left,
          refl,
          (small, tt),
          (full, tt),
          ap (λ r. p.sent r.1.node.link) step
              ∙ sent
              ∙ ap (λ t. p.sent w.node.link ++ t) (sym (append-nil (frame_image bytes))),
        )

    -- A message that is taken while a batch is open goes into it or, where it does not fit, into the
    -- next one; the others follow.
    pub loop-Carried :
        (fuel : ℕ) (msgs : List Drained) (sn : ℕ) (cur : List Drained) (l : Drained) (w : W)
        → held w ≡ msgs
        → length msgs < fuel
        → length ke ≤ 256
        → w.node.gid ≡ gid
        → w.node.sn ≡ (sn + 1) % u64_size
        → length (batch_image ke gid sn cur) ≤ 1_024
        → 1 ≤ length cur
        → Carried w sn cur msgs (finished (loop fuel (begun (batch_image ke gid sn cur) l) w))
    loop-Carried zero msgs sn cur l w e h hk hg hs small full = absurd (omega arith)
    loop-Carried (suc fuel) [] sn cur l w e h hk hg hs small full =
        end-Carried fuel sn cur l w e small full
    loop-Carried (suc fuel) (m ∷ rest) sn cur l w e h hk hg hs small full =
        let m1 = shortened 512 m in
        let w2 = taken m1 w in
        let bytes = batch_image ke gid sn cur in
        let short : length m1.0 ≤ 512 = omega (arith, length-take (min (length m.0) 512) m.0) in
        let (node, left) = held-taken w m rest e in
        let gid2 : w2.node.gid ≡ gid = ap (λ n. n.gid) node ∙ hg in
        let next = loop_next fuel (begun bytes l) w m rest e in
        elim (Bool-cases (ltb 1_024 (length bytes + msg_est ke m1))) [
          | inl over ↦
              let sn1 = (sn + 1) % u64_size in
              let w3 =
                next_sn link pubs subs (with_link (write_frame link bytes w2.node.link).1 w2) in
              let sn2 : w2.node.sn ≡ sn1 = ap (λ n. n.sn) node ∙ hs in
              let begun_anew : frame_header_image w2.node.sn true ++ image ke w2.node.gid m1
                  ≡ batch_image ke gid sn1 (m1 ∷ []) =
                ap (λ g. frame_header_image w2.node.sn true ++ image ke g m1) gid2
                ∙ ap (λ k. frame_header_image k true ++ image ke gid m1) sn2
                ∙ ap (λ t. frame_header_image sn1 true ++ t) (sym (append-nil (image ke gid m1))) in
              let run =
                send_message_full link pubs subs address ke m1 l bytes w2 writable
                  (omega (arith, sn2)) (omega arith) short small
                  (ltb→lt 1_024 (length bytes + msg_est ke m1) over) in
              let step : finished (loop (suc fuel) (begun bytes l) w)
                  ≡ finished (loop fuel (begun (batch_image ke gid sn1 (m1 ∷ [])) m1) w3) =
                ap finished (
                  next
                  ∙ ap (λ r. bind_outcome r.0 r.1 (loop fuel)) run
                  ∙ ap (λ b. loop fuel (begun b m1) w3) begun_anew) in
              let small1 : length (batch_image ke gid sn1 (m1 ∷ [])) ≤ 1_024 = omega (
                arith,
                ap length begun_anew,
                length-append (frame_header_image w2.node.sn true) (image ke w2.node.gid m1),
                length-frame_header_image w2.node.sn true,
                length-image ke w2.node.gid m1 (omega arith) (omega arith),
              ) in
              let (g, gs, answer, none_left, all, fit, filled, sent) =
                loop-Carried fuel rest sn1 (m1 ∷ []) m1 w3 left (omega arith) hk gid2
                  (ap (λ k. (k + 1) % u64_size) sn2) small1 (omega arith) in
              let flushed : p.sent w3.node.link ≡ p.sent w.node.link ++ frame_image bytes =
                (write_frame-sent link p bytes w2.node.link
                  (write_frame-ok link writable bytes w2.node.link (omega arith))).0
                ∙ ap (λ n. p.sent n.link ++ frame_image bytes) node in
              (
                cur,
                g ∷ gs,
                ap (λ r. r.0) step ∙ answer,
                ap (λ r. held r.1) step ∙ none_left,
                ap (◌++◌ cur) all,
                (small, fit),
                (full, filled),
                ap (λ r. p.sent r.1.node.link) step
                    ∙ sent
                    ∙ ap (λ t. t ++ framed (batches ke gid sn1 (g ∷ gs))) flushed
                    ∙ append_assoc (p.sent w.node.link) (frame_image bytes)
                        (framed (batches ke gid sn1 (g ∷ gs))),
              )
          | inr fits ↦
              let cur2 = cur ++ (m1 ∷ []) in
              let grown : bytes ++ image ke w2.node.gid m1 ≡ batch_image ke gid sn cur2 =
                ap (λ g. bytes ++ image ke g m1) gid2 ∙ batch_image-append ke gid sn cur m1 in
              let run =
                send_message_fits link pubs subs address ke m1 l bytes w2 (omega arith) short
                  (ltb→le 1_024 (length bytes + msg_est ke m1) fits) in
              let step : finished (loop (suc fuel) (begun bytes l) w)
                  ≡ finished (loop fuel (begun (batch_image ke gid sn cur2) m1) w2) =
                ap finished (
                  next
                  ∙ ap (λ r. bind_outcome r.0 r.1 (loop fuel)) run
                  ∙ ap (λ b. loop fuel (begun b m1) w2) grown) in
              let small2 : length (batch_image ke gid sn cur2) ≤ 1_024 = omega (
                arith,
                ap length grown,
                length-append bytes (image ke w2.node.gid m1),
                length-image ke w2.node.gid m1 (omega arith) (omega arith),
                ltb→le 1_024 (length bytes + msg_est ke m1) fits,
              ) in
              let (g, gs, answer, none_left, all, fit, filled, sent) =
                loop-Carried fuel rest sn cur2 m1 w2 left (omega arith) hk gid2
                  (ap (λ n. n.sn) node ∙ hs) small2 (omega (arith, length-append cur (m1 ∷ []))) in
              (
                g,
                gs,
                ap (λ r. r.0) step ∙ answer,
                ap (λ r. held r.1) step ∙ none_left,
                all ∙ append_assoc cur (m1 ∷ []) (shorts rest),
                fit,
                filled,
                ap (λ r. p.sent r.1.node.link) step
                    ∙ sent
                    ∙ ap (λ n. p.sent n.link ++ framed (batches ke gid sn (g ∷ gs))) node,
              )
        ]
