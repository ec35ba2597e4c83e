-- ===== src/Sdk/Topics/Local.antt =====
-- When two topics are the same, and who gets a message that is published within the node.
use zenoh_ros2_nostd.Common.{
  ℕ, zero, suc, ◌≡◌, ◌≢◌, refl, ap, sym, ◌∙◌, ◌++◌, replicate, ne→==, ==→ne, false, ◌↔◌, List, [],
  ◌∷◌, Bool, true, ◌==◌, Bool-cases, inl, inr, ==→eq, ==_self, if◌then◌else◌, arith,
}
use zenoh_ros2_nostd.Ros2.Channel.{Channel}
use zenoh_ros2_nostd.Ros2.Locality.{Locality, any, session_local, remote, is_remote}
use zenoh_ros2_nostd.Ros2.Keyexpr.{TopicKeyExpr}
use zenoh_ros2_nostd.Ros2.Subscription.{SubMessage, Subscription, push_raw}
use zenoh_ros2_nostd.Sdk.Statics.{Store}
use zenoh_ros2_nostd.Sdk.Node.{SubscriberEntry}
use zenoh_ros2_nostd.Sdk.Topics.{
  trim_slashes, same_bytes, topics_match, takes_local, deliver, dispatch_local,
}

same_bytes-eq : (xs ys : List ℕ) → same_bytes xs ys ≡ true → xs ≡ ys
unfolding same_bytes
same_bytes-eq [] [] h = refl
same_bytes-eq [] (y ∷ ys) h = absurd (ground arith)
same_bytes-eq (x ∷ xs) [] h = absurd (ground arith)
same_bytes-eq (x ∷ xs) (y ∷ ys) h = ground (arith, ==→eq x y, same_bytes-eq xs ys)

same_bytes_self : (xs : List ℕ) → same_bytes xs xs ≡ true
unfolding same_bytes
same_bytes_self [] = refl
same_bytes_self (x ∷ xs) = rw (==_self x, same_bytes_self xs) refl

-- A topic with one more slash in front of its name.
abbrev pub slashed : TopicKeyExpr → TopicKeyExpr
slashed t = record t { topic_name = b'/' ∷ t.topic_name }

-- Two topics match exactly if they are of the same domain and have the same name without the slashes
-- in front; so every topic matches itself, whatever slashes are put in front of it, and its type and
-- hash make no difference.
pub topics_match-same :
    (a b : TopicKeyExpr)
    → (topics_match a b ≡ true
        ↔ ((a.domain_id ≡ b.domain_id) × (trim_slashes a.topic_name ≡ trim_slashes b.topic_name)))
      × (topics_match a (slashed b) ≡ topics_match a b)
      × (topics_match a (slashed a) ≡ true)
unfolding topics_match trim_slashes
topics_match-same a b = (
  (
    λ h. ground (
      arith,
      ==→eq a.domain_id b.domain_id,
      same_bytes-eq (trim_slashes a.topic_name) (trim_slashes b.topic_name),
    ),
    λ (d, n). rw (d, n, ==_self b.domain_id, same_bytes_self (trim_slashes b.topic_name)) refl,
  ),
  refl,
  rw (==_self a.domain_id, same_bytes_self (trim_slashes a.topic_name)) refl,
)

-- Names that are the same but for slashes in front.
abbrev pub Unslashed : List ℕ → Type 0
Unslashed [] = Unit {0}
Unslashed (c ∷ name) = c ≢ b'/'

abbrev pub SameName : List ℕ → List ℕ → Type 0
SameName a b =
    (m : ℕ) × (n : ℕ) × (name : List ℕ) × (a ≡ replicate m b'/' ++ name)
    × (b ≡ replicate n b'/' ++ name)
    × Unslashed name

trim_slashes-Unslashed : (name : List ℕ) → Unslashed name → trim_slashes name ≡ name
unfolding trim_slashes
trim_slashes-Unslashed [] h = refl
trim_slashes-Unslashed (c ∷ name) h = rw (ne→== c b'/' h) refl

trimmed : (m : ℕ) (name : List ℕ) → Unslashed name → trim_slashes (replicate m b'/' ++ name) ≡ name
unfolding trim_slashes
trimmed zero name h = trim_slashes-Unslashed name h
trimmed (suc m) name h = trimmed m name h

slashes :
    (a : List ℕ) → (m : ℕ) × (a ≡ replicate m b'/' ++ trim_slashes a) × Unslashed (trim_slashes a)
unfolding trim_slashes
slashes [] = (0, refl, tt)
slashes (c ∷ a) = elim (Bool-cases (c == b'/')) [
  | inl e ↦
      let (m, front, bare) = slashes a in
      rw e (suc m, ap (λ d. d ∷ a) (==→eq c b'/' e) ∙ ap (◌∷◌ b'/') front, bare)
  | inr e ↦ rw e (0, refl, ==→ne c b'/' e)
]

-- Which entries a message that is published within the node is for: not those for remote messages
-- only, and those of its domain and name, whatever slashes stand in front.
abbrev pub IsFor : TopicKeyExpr → SubscriberEntry → Type 0
IsFor topic entry =
    (entry.locality ≢ remote)
    × (entry.topic.domain_id ≡ topic.domain_id)
    × SameName entry.topic.topic_name topic.topic_name

-- How many of the entries a message of a topic is for, of those that name the subscription at an
-- address.
pub data Matches (topic : TopicKeyExpr) (address : ℕ) : List SubscriberEntry → ℕ → Type 0 where
  no_entry : Matches topic address [] 0
  counted :
      (entry : SubscriberEntry) (entries : List SubscriberEntry) (n : ℕ)
      → IsFor topic entry
      → entry.dispatch ≡ address
      → Matches topic address entries n
      → Matches topic address (entry ∷ entries) (suc n)
  other_topic :
      (entry : SubscriberEntry) (entries : List SubscriberEntry) (n : ℕ)
      → ¬ IsFor topic entry
      → Matches topic address entries n
      → Matches topic address (entry ∷ entries) n
  elsewhere :
      (entry : SubscriberEntry) (entries : List SubscriberEntry) (n : ℕ)
      → entry.dispatch ≢ address
      → Matches topic address entries n
      → Matches topic address (entry ∷ entries) n

same_name : (a b : List ℕ) → trim_slashes a ≡ trim_slashes b → SameName a b
same_name a b e =
    let (m, front_a, bare) = slashes a in
    let (n, front_b, bare_b) = slashes b in
    (m, n, trim_slashes a, front_a, front_b ∙ ap (λ l. replicate n b'/' ++ l) (sym e), bare)

trim_same : (a b : List ℕ) → SameName a b → trim_slashes a ≡ trim_slashes b
trim_same a b (m, n, name, ea, eb, bare) =
    ap trim_slashes ea ∙ trimmed m name bare ∙ sym (ap trim_slashes eb ∙ trimmed n name bare)

not_remote : (l : Locality) → is_remote l ≡ false → l ≢ remote
not_remote any e h = cc
not_remote session_local e h = cc
not_remote remote e h = cc

local_too : (l : Locality) → l ≢ remote → is_remote l ≡ false
local_too any h = refl
local_too session_local h = refl
local_too remote h = absurd (h refl)

abbrev pub times {ℓ} : {A : Type ℓ} → ℕ → (A → A) → A → A
times zero f a = a
times (suc n) f a = times n f (f a)

module _ (channel : Channel SubMessage) where
  open channel use {State}

  near_enough : (r same : Bool) → (if r then false else same) ≡ true → (r ≡ false) × (same ≡ true)
  near_enough true same e = cc
  near_enough false same e = (refl, e)

  takes_local-IsFor :
      (topic : TopicKeyExpr) (entry : SubscriberEntry)
      → takes_local channel topic entry ≡ true
      → IsFor topic entry
  takes_local-IsFor topic entry e =
      let (near, same) =
        near_enough (is_remote entry.locality) (topics_match entry.topic topic) e in
      let (matches, slashed_b, slashed_a) = topics_match-same entry.topic topic in
      let (domain, name) = matches.0 same in
      (not_remote entry.locality near, domain, same_name _ _ name)

  takes_local-IsFor_not :
      (topic : TopicKeyExpr) (entry : SubscriberEntry)
      → takes_local channel topic entry ≡ false
      → ¬ IsFor topic entry
  takes_local-IsFor_not topic entry e (near, domain, named) =
      let (matches, slashed_b, slashed_a) = topics_match-same entry.topic topic in
      let hit = matches.1 (domain, trim_same _ _ named) in
      let here = local_too entry.locality near in let miss = rw (here, hit) at e in cc

  delivered :
      (entry : SubscriberEntry) (topic : TopicKeyExpr) (payload : List ℕ)
      (store : Store (Subscription State)) (address n : ℕ)
      → times n (push_raw channel payload) (deliver channel entry payload store address)
        ≡ times
            (if entry.dispatch == address then suc n else n)
            (push_raw channel payload)
            (store address)
  delivered entry topic payload store address n = elim (Bool-cases (entry.dispatch == address)) [
    | inl e ↦ rw e (
        ap (λ i. times n (push_raw channel payload) (push_raw channel payload (store i)))
          (==→eq entry.dispatch address e))
    | inr e ↦ rw e refl
  ]

  step-Matches :
      (topic : TopicKeyExpr) (address : ℕ) (entry : SubscriberEntry)
      (entries : List SubscriberEntry) (n : ℕ)
      → IsFor topic entry
      → Matches topic address entries n
      → Matches topic address (entry ∷ entries) (if entry.dispatch == address then suc n else n)
  step-Matches topic address entry entries n own rest =
      elim (Bool-cases (entry.dispatch == address)) [
        | inl e ↦ rw e (counted entry entries n own (==→eq entry.dispatch address e) rest)
        | inr e ↦ rw e (elsewhere entry entries n (==→ne entry.dispatch address e) rest)
      ]

  -- A message that is published within the node is pushed to the subscription at each address once
  -- for each entry that names it and that the message is for, and to no other subscription.
  pub dispatch_local-Matches :
      (entries : List SubscriberEntry) (topic : TopicKeyExpr) (payload : List ℕ)
      (store : Store (Subscription State)) (address : ℕ)
      → (n : ℕ) × Matches topic address entries n
        × (dispatch_local channel entries topic payload store address
            ≡ times n (push_raw channel payload) (store address))
  unfolding dispatch_local
  dispatch_local-Matches [] topic payload store address = (0, no_entry, refl)
  dispatch_local-Matches (entry ∷ entries) topic payload store address =
      elim (Bool-cases (takes_local channel topic entry)) [
        | inl t ↦
            let (n, found, pushed) =
              dispatch_local-Matches entries topic payload (deliver channel entry payload store)
                address in
            (
              if entry.dispatch == address then suc n else n,
              step-Matches topic address entry entries n (takes_local-IsFor topic entry t) found,
              rw t (pushed ∙ delivered entry topic payload store address n),
            )
        | inr t ↦
            let (n, found, pushed) = dispatch_local-Matches entries topic payload store address in
            (
              n,
              other_topic entry entries n (takes_local-IsFor_not topic entry t) found,
              rw t pushed,
            )
      ]
