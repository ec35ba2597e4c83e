-- ===== src/Tests/MemoryChannel.antt =====
-- A channel in memory, with its capacity and what it holds, and the promises of `Ros2.Channel` for it.
use zenoh_ros2_nostd.Common.{
  ℕ, ◌≤◌, ◌<◌, ◌≡◌, refl, List, [], ◌∷◌, ◌++◌, Bool, true, false, Option, none, some, length, ltb,
  lt→ltb, le→ltb, Bool-cases, inl, inr, if◌then◌else◌,
}
use zenoh_ros2_nostd.Ros2.Channel.{Channel, KeepsOrder}

pub record Held (A : Type 0) : Type 0 where
  pub capacity : ℕ
  pub contents : List A

abbrev pub send_held : {A : Type 0} → A → Held A → Bool × Held A
send_held a c =
    if ltb (length c.contents) c.capacity
    then (true, record c { contents = c.contents ++ (a ∷ []) })
    else (false, c)

abbrev pub receive_from : {A : Type 0} → ℕ → List A → Option A × Held A
receive_from capacity [] = (none, record { capacity = capacity; contents = [] })
receive_from capacity (a ∷ rest) = (some a, record { capacity = capacity; contents = rest })

abbrev pub memory_channel : (A : Type 0) → Channel A
memory_channel A = record {
  State = Held A;
  try_send = send_held;
  try_receive = λ c. receive_from c.capacity c.contents;
}

module _ {A : Type 0} where
  pub send_room :
      (a : A) (c : Held A)
      → length c.contents < c.capacity
      → ((send_held a c).0 ≡ true) × ((send_held a c).1.contents ≡ c.contents ++ (a ∷ []))
  send_room a c h = rw (lt→ltb (length c.contents) c.capacity h) (refl, refl)

  pub send_full :
      (a : A) (c : Held A)
      → c.capacity ≤ length c.contents
      → ((send_held a c).0 ≡ false) × ((send_held a c).1.contents ≡ c.contents)
  send_full a c h = rw (le→ltb (length c.contents) c.capacity h) (refl, refl)

  pub capacity-send : (a : A) (c : Held A) → (send_held a c).1.capacity ≡ c.capacity
  capacity-send a c = elim (Bool-cases (ltb (length c.contents) c.capacity)) [
    | inl e ↦ rw e refl
    | inr e ↦ rw e refl
  ]

  pub receive_some :
      (a : A) (rest : List A) (c : Held A)
      → c.contents ≡ a ∷ rest
      → ((receive_from c.capacity c.contents).0 ≡ some a)
        × ((receive_from c.capacity c.contents).1.contents ≡ rest)
  receive_some a rest c e = rw e (refl, refl)

  pub receive_empty :
      (c : Held A)
      → c.contents ≡ []
      → ((receive_from c.capacity c.contents).0 ≡ none)
        × ((receive_from c.capacity c.contents).1.contents ≡ [])
  receive_empty c e = rw e (refl, refl)

  pub capacity-receive :
      (capacity : ℕ) (held : List A) → (receive_from capacity held).1.capacity ≡ capacity
  capacity-receive capacity [] = refl
  capacity-receive capacity (a ∷ rest) = refl

  abbrev pub memory-KeepsOrder : KeepsOrder (memory_channel A)
  memory-KeepsOrder = record {
    contents = λ c. c.contents;
    capacity = λ c. c.capacity;
    try_send-room = send_room;
    try_send_full = send_full;
    capacity-try_send = capacity-send;
    try_receive-some = receive_some;
    try_receive_empty = receive_empty;
    capacity-try_receive = λ c. capacity-receive c.capacity c.contents;
  }
