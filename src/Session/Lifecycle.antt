-- ===== src/Session/Lifecycle.antt =====
-- How a session opens and closes.
use zenoh_ros2_nostd.Common.{ℕ, ◌≡◌, refl, List, [], ◌∷◌, ◌++◌, replicate, ok, err, panic}
use zenoh_ros2_nostd.Error.{TransportError, Wire}
use zenoh_ros2_nostd.Error.Top.{Error, transport}
use zenoh_ros2_nostd.Transport.Link.{Link, Promises}
use zenoh_ros2_nostd.Transport.Frame.{write_frame}
use zenoh_ros2_nostd.Transport.Frame.RoundTrip.{frame_image, write_frame-sent}
use zenoh_ros2_nostd.Transport.Codec.Extension.Chain.{Extension}
use zenoh_ros2_nostd.Transport.Writer.{write_slice}
use zenoh_ros2_nostd.Transport.Codec.Header.{encode_close}
use zenoh_ros2_nostd.Transport.Handshake.{client_handshake, HandshakeResult}
use zenoh_ros2_nostd.Session.{
  Session, SessionConfig, opened, closing, disconnected, fresh, do_handshake, open_session,
  close_session,
}

-- A session opens exactly as its handshake goes. Where the handshake succeeds, the session is open
-- on the link as the handshake left it, its first sequence number is 0 and its first key number 1,
-- and its lease is 0, whatever lease the router announced. Where the handshake fails or panics,
-- there is no session, and the error is the handshake's.
pub open_session-client_handshake :
    (link : Link) (tx_size rx_size : ℕ) (config : SessionConfig) (l : link.State)
    → let (answer, l') = client_handshake link config.zid (replicate tx_size 0) rx_size l in
      ((result : HandshakeResult)
        → answer ≡ ok result
        → open_session link tx_size rx_size l config
          ≡ ok (record (fresh l' config) { state = opened }))
      × ((e : TransportError)
          → answer ≡ err e
          → open_session link tx_size rx_size l config ≡ err (transport e))
      × (answer ≡ panic → open_session link tx_size rx_size l config ≡ panic)
unfolding open_session do_handshake
open_session-client_handshake link tx_size rx_size config l =
    (λ result e. rw e, λ error e. rw e, λ e. rw e)

abbrev pub close_image : List ℕ
close_image = 0x03 ∷ 0x00 ∷ []

-- After `close` the session is disconnected if the Close went out, and then the Close is what was
-- sent; it is left closing if the link failed.
pub close_session-sent :
    (link : Link) (p : Promises link) (tx_size rx_size : ℕ) (s : Session link.State)
    → let (answer, s') = close_session link tx_size rx_size s in
      (answer ≡ ok tt
        → (s'.state ≡ disconnected) × (p.sent s'.link ≡ p.sent s.link ++ frame_image close_image))
      × ((e : Error) → answer ≡ err e → s'.state ≡ closing)
unfolding close_session encode_close write_slice
close_session-sent link p tx_size rx_size s = go (write_frame link close_image s.link).0 refl
  where
    go :
        (o : Wire (Unit {0}))
        → (write_frame link close_image s.link).0 ≡ o
        → let (answer, s') = close_session link tx_size rx_size s in
          (answer ≡ ok tt
            → (s'.state ≡ disconnected)
              × (p.sent s'.link ≡ p.sent s.link ++ frame_image close_image))
          × ((e : Error) → answer ≡ err e → s'.state ≡ closing)
    go (ok u) e = rw e ((λ a. (refl, (write_frame-sent link p close_image s.link e).0)), λ x a. cc)
    go (err x) e = rw e ((λ a. cc), λ y a. refl)
    go panic e = rw e ((λ a. cc), λ y a. cc)
