-- ===== src/Sdk/Routing/Delivery.antt =====
-- Who gets what arrives: a Push for a declared key, in one Frame.
use zenoh_ros2_nostd.Common.{
  ℕ, ◌+◌, ◌<◌, ◌≡◌, ◌≢◌, Bool, false, if◌then◌else◌, append_assoc, refl, List, [], ◌∷◌, ◌++◌, true,
  some, All, length, ok,
}
use zenoh_ros2_nostd.Transport.Reader.{usize_size, read_byte, read_when}
use zenoh_ros2_nostd.Transport.Vbyte.{u64_size}
use zenoh_ros2_nostd.Transport.Vbyte.Encode.{vbyte}
use zenoh_ros2_nostd.Transport.Slice.RoundTrip.{slice_image}
use zenoh_ros2_nostd.Transport.Slice.Steps.{read_vbyte}
use zenoh_ros2_nostd.Transport.Codec.Header.{parse_transport_msg_kind, frame}
use zenoh_ros2_nostd.Transport.Codec.Put.{IncomingPut, decode_push_put, read_suffix}
use zenoh_ros2_nostd.Transport.Codec.Put.RoundTrip.{read_plain}
use zenoh_ros2_nostd.Ros2.Channel.{Channel}
use zenoh_ros2_nostd.Ros2.Locality.{Locality, session_local}
use zenoh_ros2_nostd.Ros2.Subscription.{SubMessage, Subscription}
use zenoh_ros2_nostd.Sdk.Statics.{Store}
use zenoh_ros2_nostd.Sdk.Node.{SubscriberEntry}
use zenoh_ros2_nostd.Sdk.Topics.{deliver}
use zenoh_ros2_nostd.Sdk.Routing.{Inbox, takes_remote, route_to_subscribers, routed, handle_put}

-- A Push with a Put for a key that the client declared under a number.
abbrev pub scoped_image : ℕ → List ℕ → List ℕ
scoped_image key_id payload = 0x1d ∷ (vbyte key_id ++ (0x01 ∷ slice_image payload))

abbrev pub scoped_put : ℕ → List ℕ → IncomingPut
scoped_put key_id payload = record { scope = key_id; key_suffix = []; payload = payload }

decode_push_put-scoped_image :
    (key_id : ℕ) (payload rest : List ℕ)
    → key_id < u64_size
    → length payload + 10 < usize_size
    → (n : ℕ) × (decode_push_put (scoped_image key_id payload ++ rest)
        ≡ ok (some (scoped_put key_id payload, n)))
unfolding decode_push_put read_suffix read_when read_byte
decode_push_put-scoped_image key_id payload rest hk hp = (
  1 + length (vbyte key_id) + 1 + length (slice_image payload),
  rw
      (
        append_assoc (vbyte key_id) (0x01 ∷ slice_image payload) rest,
        read_vbyte key_id 1 (0x01 ∷ (slice_image payload ++ rest)) hk,
        read_plain payload (1 + length (vbyte key_id) + 1) rest hp,
      )
      refl,
)

-- Which entries a message from the network under a key number is for: the number is not 0, the entry
-- has it, and it is not for local messages only.
abbrev pub IsFor : ℕ → SubscriberEntry → Type 0
IsFor key_id entry = (key_id ≢ 0) × (entry.key_id ≡ key_id) × (entry.locality ≢ session_local)

pub frame_kind :
    (reliable : Bool) → parse_transport_msg_kind (if reliable then 0x25 else 0x05) ≡ frame
unfolding parse_transport_msg_kind
frame_kind true = refl
frame_kind false = refl

module _ (channel : Channel SubMessage) where
  open channel use {State}

  -- The entry that a message goes to: the first of those that take it.
  pub route_to_first :
      (before : List SubscriberEntry) (entry : SubscriberEntry) (after : List SubscriberEntry)
      (scope_id : ℕ) (payload : List ℕ) (store : Store (Subscription State))
      → All (λ e. takes_remote scope_id e ≡ false) before
      → takes_remote scope_id entry ≡ true
      → route_to_subscribers channel (before ++ (entry ∷ after)) scope_id payload store
        ≡ deliver channel entry payload store
  unfolding route_to_subscribers
  route_to_first [] entry after scope_id payload store h t = rw t refl
  route_to_first (e ∷ before) entry after scope_id payload store (h, hs) t =
      rw h (route_to_first before entry after scope_id payload store hs t)

  pub handle_put-scoped :
      (entries : List SubscriberEntry) (key_id : ℕ) (payload rest : List ℕ) (inbox : Inbox State)
      → key_id < u64_size
      → length payload + 10 < usize_size
      → handle_put channel false entries
          (decode_push_put (scoped_image key_id payload ++ rest))
          inbox
        ≡ (ok tt, routed channel entries (scoped_put key_id payload) inbox)
  unfolding handle_put
  handle_put-scoped entries key_id payload rest inbox hk hp =
      let (n, decoded) = decode_push_put-scoped_image key_id payload rest hk hp in rw decoded refl
