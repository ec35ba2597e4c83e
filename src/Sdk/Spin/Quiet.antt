-- ===== src/Sdk/Spin/Quiet.antt =====
-- Rounds in which a frame is read before the wait ends.
use zenoh_ros2_nostd.Common.{
  ℕ, zero, suc, ◌≡◌, refl, ap, ◌∙◌, List, [], Bool, true, false, ltb, ◌==◌, if◌then◌else◌,
  replicate, Outcome, ok, err, panic,
}
use zenoh_ros2_nostd.Common.Words.{from_le_bytes}
use zenoh_ros2_nostd.Error.{TransportError}
use zenoh_ros2_nostd.Error.Top.{Error}
use zenoh_ros2_nostd.Transport.Link.{Link, Promises, bind_outcome, pure}
use zenoh_ros2_nostd.Transport.Frame.{try_read, read_body, read_frame}
use zenoh_ros2_nostd.Ros2.Channel.{Channel}
use zenoh_ros2_nostd.Ros2.Publisher.{CdrPayload}
use zenoh_ros2_nostd.Ros2.Subscription.{SubMessage}
use zenoh_ros2_nostd.Sdk.Node.{rx_buf_size}
use zenoh_ros2_nostd.Sdk.World.{on_wire}
use zenoh_ros2_nostd.Sdk.Drain.{drain_publishers, drain_each}
use zenoh_ros2_nostd.Sdk.Spin.{State, reads, after_wait, spin_round, spin, dispatch_next}

module _ (link : Link) (p : Promises link) where
  read_body-quiet : (size n : ℕ) (l : link.State) → p.sent (read_body link size n l).1 ≡ p.sent l
  unfolding read_body
  read_body-quiet size n l = go (n == 0) (ltb size n)
    where
      go :
          (a b : Bool)
          → p.sent
              ((if a
                  then pure {S = link.State} {E = TransportError} (ok [])
                  else (if b then pure (err TransportError.frame_too_large) else try_read link n))
                l).1
            ≡ p.sent l
      go true b = refl
      go false true = refl
      go false false = p.read_exact-sent n l

  -- Reading a frame sends nothing, whatever it ends in.
  pub read_frame-quiet : (size : ℕ) (l : link.State) → p.sent (read_frame link size l).1 ≡ p.sent l
  unfolding read_frame
  read_frame-quiet size l = go (try_read link 2 l).0 (try_read link 2 l).1 ∙ p.read_exact-sent 2 l
    where
      go :
          (o : Outcome TransportError (List ℕ)) (m : link.State)
          → p.sent (bind_outcome o m (λ len_bytes. read_body link size (from_le_bytes len_bytes))).1
            ≡ p.sent m
      go (ok bytes) m = read_body-quiet size (from_le_bytes bytes) m
      go (err e) m = refl
      go panic m = refl

  module _ (pubs : Channel CdrPayload) (subs : Channel SubMessage) (fuel : ℕ) where
    abbrev Quiet : State link pubs subs fuel → State link pubs subs fuel → Type 0
    Quiet w w' =
        (p.sent w'.node.link ≡ p.sent w.node.link) × (w'.node.publishers ≡ w.node.publishers)

    after_wait_lem :
        (w : State link pubs subs fuel) → Quiet w (after_wait link pubs subs fuel reads w).1
    unfolding after_wait
    after_wait_lem w =
        let (o, w') = on_wire (read_frame link rx_buf_size) w in
        let (s, k) = go o w' in (s ∙ read_frame-quiet rx_buf_size w.node.link, k)
      where
        go :
            (o : Outcome Error (List ℕ)) (w' : State link pubs subs fuel)
            → Quiet w' (bind_outcome o w' (dispatch_next link pubs subs fuel)).1
        go (ok bytes) w' = (refl, refl)
        go (err e) w' = (refl, refl)
        go panic w' = (refl, refl)

    drain_none :
        (w : State link pubs subs fuel)
        → w.node.publishers ≡ []
        → drain_publishers link pubs subs fuel w ≡ (ok tt, w)
    unfolding drain_publishers drain_each
    drain_none w e = ap (λ addresses. drain_each link pubs subs fuel addresses w) e

    spin_round_lem :
        (w : State link pubs subs fuel)
        → w.node.publishers ≡ []
        → Quiet w (spin_round link pubs subs fuel reads w).1
    unfolding spin_round
    spin_round_lem w e =
        let same : spin_round link pubs subs fuel reads w ≡ after_wait link pubs subs fuel reads w =
          ap (λ r. bind_outcome r.0 r.1 (λ u. after_wait link pubs subs fuel reads))
            (drain_none w e) in
        let (s, k) = after_wait_lem w in
        (ap (λ r. p.sent r.1.node.link) same ∙ s, ap (λ r. r.1.node.publishers) same ∙ k)

    -- As long as a frame is read before each wait ends, a node without publishers sends nothing, for
    -- any number of rounds, whatever it is told and for how long: no KeepAlive goes out.
    pub spin-quiet :
        (rounds : ℕ) (w : State link pubs subs fuel)
        → w.node.publishers ≡ []
        → p.sent (spin link pubs subs fuel (replicate rounds reads) w).1.node.link
          ≡ p.sent w.node.link
    unfolding spin
    spin-quiet zero w e = refl
    spin-quiet (suc rounds) w e =
        let (s, k) = spin_round_lem w e in
        let (o, w') = spin_round link pubs subs fuel reads w in
        go (spin-quiet rounds) o w' (k ∙ e) ∙ s
      where
        go :
            ((v : State link pubs subs fuel)
              → v.node.publishers ≡ []
              → p.sent (spin link pubs subs fuel (replicate rounds reads) v).1.node.link
                ≡ p.sent v.node.link)
            → (o : Outcome Error (Unit {0})) (w' : State link pubs subs fuel)
            → w'.node.publishers ≡ []
            → p.sent
                (bind_outcome o w'
                  (λ u. spin link pubs subs fuel (replicate rounds reads))).1.node.link
              ≡ p.sent w'.node.link
        go later (ok u) w' h = later w' h
        go later (err d) w' h = refl
        go later panic w' h = refl
