-- ===== src/Ros2/Channel.antt =====
-- The channel between tasks, embassy_sync::channel::Channel: it is not in this repository, and is
-- a parameter. What a call that does not wait answers, and the channel after it.
use zenoh_ros2_nostd.Common.{
  ℕ, ◌≤◌, ◌<◌, ◌≡◌, List, [], ◌∷◌, ◌++◌, Bool, true, false, Option, none, some, length,
}

pub record Channel (A : Type 0) : Type 1 where
  pub State : Type 0
  pub try_send : A → State → Bool × State
  pub try_receive : State → Option A × State

-- What its documentation promises: it holds up to a fixed number of messages, hands them out in
-- the order they came in, refuses a message when it is full, and has none to give when it is empty.
pub record KeepsOrder {A : Type 0} (channel : Channel A) : Type 1 where
  pub contents : channel.State → List A
  pub capacity : channel.State → ℕ
  pub try_send-room :
      (a : A) (c : channel.State)
      → length (contents c) < capacity c
      → ((channel.try_send a c).0 ≡ true)
        × (contents (channel.try_send a c).1 ≡ contents c ++ (a ∷ []))
  pub try_send_full :
      (a : A) (c : channel.State)
      → capacity c ≤ length (contents c)
      → ((channel.try_send a c).0 ≡ false) × (contents (channel.try_send a c).1 ≡ contents c)
  pub capacity-try_send :
      (a : A) (c : channel.State) → capacity (channel.try_send a c).1 ≡ capacity c
  pub try_receive-some :
      (a : A) (rest : List A) (c : channel.State)
      → contents c ≡ a ∷ rest
      → ((channel.try_receive c).0 ≡ some a) × (contents (channel.try_receive c).1 ≡ rest)
  pub try_receive_empty :
      (c : channel.State)
      → contents c ≡ []
      → ((channel.try_receive c).0 ≡ none) × (contents (channel.try_receive c).1 ≡ [])
  pub capacity-try_receive : (c : channel.State) → capacity (channel.try_receive c).1 ≡ capacity c
