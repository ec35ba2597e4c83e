-- ===== src/Sdk/Register/Invariant.antt =====
-- The registrations of publishers and subscriptions, and what holds of a node.
use zenoh_ros2_nostd.Common.{
  ℕ, ◌<◌, ◌≡◌, refl, List, ◌++◌, true, false, Bool-cases, inl, inr, arith, ok,
}
use zenoh_ros2_nostd.Common.{map_err, replicate}
use zenoh_ros2_nostd.Error.Top.{Error, transport, invalid_argument}
use zenoh_ros2_nostd.Transport.Link.{Link, Io, ◌>>=◌, ◌>>◌, pure}
use zenoh_ros2_nostd.Transport.Frame.{write_frame}
use zenoh_ros2_nostd.Transport.Codec.Header.{encode_frame_header}
use zenoh_ros2_nostd.Transport.Codec.Declare.{
  encode_declare_keyexpr, encode_declare_subscriber_mapped, encode_declare_token,
}
use zenoh_ros2_nostd.Transport.Writer.{Encoder}
use zenoh_ros2_nostd.Session.{u16_size}
use zenoh_ros2_nostd.Ros2.Locality.{is_session_local}
use zenoh_ros2_nostd.Ros2.Keyexpr.{TopicKeyExpr, to_key_expr}
use zenoh_ros2_nostd.Ros2.Liveliness.{EntityType, publisher, subscriber, build_liveliness_token}
use zenoh_ros2_nostd.Ros2.Publisher.{Publisher}
use zenoh_ros2_nostd.Ros2.Subscription.{Subscription}
use zenoh_ros2_nostd.Sdk.Node.{
  Node, take_key, take_entity, text_of, entity, send_framed, declare_key, declare_subscriber,
  declare_liveliness,
}
use zenoh_ros2_nostd.Sdk.Register.{
  add_publisher, add_subscriber, create_publisher, create_subscription, entry_of,
}
use zenoh_ros2_nostd.Sdk.Register.Keeps.{
  IsNode, Keeps, pure-Keeps, pure-Keeps_value, get_sn-Keeps, advance_sn-Keeps, on_transport-Keeps,
  take_key-Keeps, take_entity-Keeps, add_publisher-Keeps, add_subscriber-Keeps, >>=-Keeps,
  >>=-Keeps_any, Known,
}

module _ (link : Link) where
  open link use {State}

  -- What `create_subscription` does for a subscription that is not for local messages only.
  abbrev subscribe_remote :
      {S : Type 0} → TopicKeyExpr → Subscription S → ℕ → Io (Node State) Error (Unit {0})
  subscribe_remote topic s address = do
    ke ← text_of (to_key_expr topic)
    key_id ← declare_key link ke
    declare_subscriber link key_id
    declare_liveliness link subscriber topic
    add_subscriber (entry_of link topic s address key_id)

  send_framed-Keeps : (size : ℕ) (message : Encoder) → Keeps Known (send_framed link size message)
  unfolding send_framed
  send_framed-Keeps size message = >>=-Keeps_any Known _ _ get_sn-Keeps λ sn.
      >>=-Keeps_any Known _ _
        (pure-Keeps (map_err transport (encode_frame_header sn true (replicate size 0))))
        λ w. >>=-Keeps_any Known _ _ advance_sn-Keeps λ u.
          >>=-Keeps_any Known _ _ (pure-Keeps (map_err transport (message w.1)))
            λ b. on_transport-Keeps (write_frame link (w.0 ++ b.0))

  declare_key-Keeps : (key : List ℕ) → Keeps (λ k. k < u16_size) (declare_key link key)
  unfolding declare_key
  declare_key-Keeps key =
      >>=-Keeps (λ k. k < u16_size) (λ k. k < u16_size) take_key
        (λ k. send_framed link 512 (encode_declare_keyexpr k key) >> pure (ok k)) take_key-Keeps
        λ k q.
          >>=-Keeps_any (λ k. k < u16_size) (send_framed link 512 (encode_declare_keyexpr k key))
            (λ u. pure (ok k)) (send_framed-Keeps 512 (encode_declare_keyexpr k key))
            λ u. pure-Keeps_value (λ k. k < u16_size) k q

  declare_liveliness-Keeps :
      (t : EntityType) (topic : TopicKeyExpr) → Keeps Known (declare_liveliness link t topic)
  unfolding declare_liveliness
  declare_liveliness-Keeps t topic = record {
    keeps = λ n v.
        let token = λ (id : ℕ). build_liveliness_token (entity n t topic id) in
        (>>=-Keeps_any Known take_entity
            (λ id. text_of (token id) >>= λ w. send_framed link 768 (encode_declare_token id w))
            take_entity-Keeps
            λ id.
              >>=-Keeps_any Known (text_of (token id))
                (λ w. send_framed link 768 (encode_declare_token id w))
                (pure-Keeps (map_err (λ u. invalid_argument) (token id)))
                λ w. send_framed-Keeps 768 (encode_declare_token id w)).keeps
          n v;
  }

  -- Registering a publisher keeps the invariant of a node, whatever it ends in.
  pub create_publisher-IsNode :
      {P : Type 0} (p : Publisher P) (address : ℕ) (n : Node State)
      → IsNode n
      → IsNode (create_publisher link p address n).1
  unfolding create_publisher
  create_publisher-IsNode p address n v = elim (Bool-cases (is_session_local p.locality)) [
    | inl local ↦ rw local (((add_publisher-Keeps address).keeps n v).0)
    | inr network ↦ rw network (
        ((>>=-Keeps_any Known (declare_liveliness link publisher p.topic)
            (λ u. add_publisher address) (declare_liveliness-Keeps publisher p.topic)
            λ u. add_publisher-Keeps address).keeps
          n v).0)
  ]

  networked :
      {S : Type 0} (topic : TopicKeyExpr) (s : Subscription S) (address : ℕ)
      → is_session_local s.locality ≡ false
      → Keeps Known (subscribe_remote topic s address)
  networked topic s address network =
      >>=-Keeps_any Known (text_of (to_key_expr topic)) _
        (pure-Keeps (map_err (λ u. invalid_argument) (to_key_expr topic)))
        λ ke.
          >>=-Keeps (λ k. k < u16_size) Known (declare_key link ke)
            (λ k.
              declare_subscriber link k
              >> (declare_liveliness link subscriber topic
                  >> add_subscriber (entry_of link topic s address k)))
            (declare_key-Keeps ke)
            λ k q.
              >>=-Keeps_any Known (declare_subscriber link k) _
                (unfold declare_subscriber in
                  send_framed-Keeps 128 (encode_declare_subscriber_mapped k k))
                λ u.
                  >>=-Keeps_any Known (declare_liveliness link subscriber topic) _
                    (declare_liveliness-Keeps subscriber topic)
                    λ u. add_subscriber-Keeps (entry_of link topic s address k) (q, λ local. cc)

  -- Registering a subscription keeps the invariant of a node, whatever it ends in: at most four
  -- entries, each with the number of its key, or 0 for a subscription to local messages.
  pub create_subscription-IsNode :
      {S : Type 0} (topic : TopicKeyExpr) (s : Subscription S) (address : ℕ) (n : Node State)
      → IsNode n
      → IsNode (create_subscription link topic s address n).1
  unfolding create_subscription
  create_subscription-IsNode topic s address n v = elim (Bool-cases (is_session_local s.locality)) [
    | inl local ↦ rw local (
        ((add_subscriber-Keeps (entry_of link topic s address 0) (omega arith, λ h. refl)).keeps n
          v).0)
    | inr network ↦ rw network (((networked topic s address network).keeps n v).0)
  ]
