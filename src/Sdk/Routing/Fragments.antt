-- ===== src/Sdk/Routing/Fragments.antt =====
-- A Push that arrives in fragments, one frame each.
use zenoh_ros2_nostd.Common.{ℕ, ◌+◌, ◌%◌, List, [], ◌∷◌, ◌++◌, Bool, true, false, if◌then◌else◌}
use zenoh_ros2_nostd.Transport.Vbyte.{u64_size}
use zenoh_ros2_nostd.Transport.Vbyte.Encode.{vbyte}
use zenoh_ros2_nostd.Transport.Fragment.{FragmentAssembler}
use zenoh_ros2_nostd.Ros2.Channel.{Channel}
use zenoh_ros2_nostd.Ros2.Subscription.{SubMessage}
use zenoh_ros2_nostd.Sdk.Node.{SubscriberEntry}
use zenoh_ros2_nostd.Sdk.Routing.{Inbox, dispatch_frame}

-- A reliable Fragment, with the M flag where more of the message follows.
abbrev pub fragment_image : ℕ → Bool → List ℕ → List ℕ
fragment_image sn more part = (if more then 0x66 else 0x26) ∷ (vbyte sn ++ part)

-- A message in fragments, with sequence numbers in a row.
abbrev pub fragment_frames : ℕ → List (List ℕ) → List ℕ → List (List ℕ)
fragment_frames sn [] last = fragment_image sn false last ∷ []
fragment_frames sn (part ∷ parts) last =
    fragment_image sn true part ∷ fragment_frames ((sn + 1) % u64_size) parts last

module _ (channel : Channel SubMessage) (entries : List SubscriberEntry) where
  open channel use {State}

  -- Frames that arrive one after the other.
  pub arrive : List (List ℕ) → Inbox State → Inbox State
  arrive [] inbox = inbox
  arrive (bytes ∷ rest) inbox = arrive rest (dispatch_frame channel entries bytes inbox).1

  abbrev fed : Inbox State → FragmentAssembler → Inbox State
  fed inbox a = record inbox { assembler = a }
