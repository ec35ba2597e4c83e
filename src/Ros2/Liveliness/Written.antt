-- ===== src/Ros2/Liveliness/Written.antt =====
-- The parts of a token that are not names: the digits of an identifier, the kind, the profile.
use zenoh_ros2_nostd.Common.{
  ℕ, ◌/◌, ◌%◌, ◌≡◌, refl, List, [], ◌∷◌, ◌++◌, Bool, true, false, not, ◌&&◌, arith, get_or,
  Bool-cases, inl, inr, ◌==◌,
}
use zenoh_ros2_nostd.Ros2.Text.Push.{IsPart, push_str-IsPart, skip-IsPart, both-IsPart}
use zenoh_ros2_nostd.Ros2.Mangle.Image.{NoSlash}
use zenoh_ros2_nostd.Ros2.Qos.{
  Reliability, Durability, History, Qos, best_effort, reliable, volatile, transient_local,
  keep_last, keep_all, depth,
}
use zenoh_ros2_nostd.Ros2.Qos.Announced.{
  qos_text, reliability_text, durability_text, history_text, depth_text,
}
use zenoh_ros2_nostd.Ros2.Liveliness.{
  EntityType, publisher, subscriber, service_server, service_client, as_str, hex, push_hex_byte,
  push_hex_bytes,
}
use zenoh_ros2_nostd.Ros2.Liveliness.Parts.{append-NoSlash, decimal-NoSlash, get_or-NoSlash}

-- Two digits for each byte.
abbrev pub hex_text : List ℕ → List ℕ
hex_text [] = []
hex_text (b ∷ bytes) = get_or hex (b / 16) 0 ∷ get_or hex (b % 16) 0 ∷ hex_text bytes

hex_byte-IsPart :
    (capacity b : ℕ)
    → IsPart capacity
        (get_or hex (b / 16) 0 ∷ get_or hex (b % 16) 0 ∷ [])
        (push_hex_byte capacity b)
unfolding push_hex_byte
hex_byte-IsPart capacity b =
    both-IsPart capacity (get_or hex (b / 16) 0 ∷ []) (get_or hex (b % 16) 0 ∷ []) _ _
      (push_str-IsPart capacity (get_or hex (b / 16) 0 ∷ []))
      (push_str-IsPart capacity (get_or hex (b % 16) 0 ∷ []))

pub hex_bytes-IsPart :
    (capacity : ℕ) (bytes : List ℕ)
    → IsPart capacity (hex_text bytes) (push_hex_bytes capacity bytes)
unfolding push_hex_bytes
hex_bytes-IsPart capacity [] = skip-IsPart capacity
hex_bytes-IsPart capacity (b ∷ bytes) =
    both-IsPart capacity (get_or hex (b / 16) 0 ∷ get_or hex (b % 16) 0 ∷ []) (hex_text bytes) _ _
      (hex_byte-IsPart capacity b) (hex_bytes-IsPart capacity bytes)

-- A text without a slash, by running through it.
unfoldable pub no_slash : List ℕ → Bool
no_slash [] = true
no_slash (c ∷ rest) = not (c == b'/') && no_slash rest

pub no_slash-NoSlash : (xs : List ℕ) → no_slash xs ≡ true → NoSlash xs
unfolding no_slash
no_slash-NoSlash [] h = tt
no_slash-NoSlash (c ∷ rest) h = elim (Bool-cases (c == b'/')) [
  | inl e ↦ absurd (ground arith)
  | inr e ↦ (e, no_slash-NoSlash rest (ground arith))
]

hex-NoSlash : NoSlash hex
unfolding no_slash
hex-NoSlash = no_slash-NoSlash hex refl

pub hex_text-NoSlash : (bytes : List ℕ) → NoSlash (hex_text bytes)
hex_text-NoSlash [] = tt
hex_text-NoSlash (b ∷ bytes) = (
  get_or-NoSlash hex (b / 16) 0 hex-NoSlash refl,
  (get_or-NoSlash hex (b % 16) 0 hex-NoSlash refl, hex_text-NoSlash bytes),
)

pub as_str-NoSlash : (t : EntityType) → NoSlash (as_str t)
unfolding as_str no_slash
as_str-NoSlash publisher = no_slash-NoSlash (as_str publisher) refl
as_str-NoSlash subscriber = no_slash-NoSlash (as_str subscriber) refl
as_str-NoSlash service_server = no_slash-NoSlash (as_str service_server) refl
as_str-NoSlash service_client = no_slash-NoSlash (as_str service_client) refl

reliability_text-NoSlash : (r : Reliability) → NoSlash (reliability_text r)
reliability_text-NoSlash best_effort = (refl, tt)
reliability_text-NoSlash reliable = tt

durability_text-NoSlash : (d : Durability) → NoSlash (durability_text d)
durability_text-NoSlash volatile = tt
durability_text-NoSlash transient_local = (refl, tt)

history_text-NoSlash : (h : History) → NoSlash (history_text h)
history_text-NoSlash (keep_last d) = tt
history_text-NoSlash keep_all = (refl, tt)

depth_text-NoSlash : (d : ℕ) → NoSlash (depth_text d)
depth_text-NoSlash d = elim (Bool-cases (d == 42)) [
  | inl e ↦ rw e tt
  | inr e ↦ rw e (decimal-NoSlash d)
]

-- Bytes that are no slash, behind a text.
then_NoSlash :
    (xs : List ℕ) (c : ℕ) (ys : List ℕ)
    → NoSlash xs
    → (c == b'/') ≡ false
    → NoSlash ys
    → NoSlash (xs ++ (c ∷ ys))
then_NoSlash xs c ys hx hc hy = append-NoSlash xs (c ∷ ys) hx (hc, hy)

pub qos_text-NoSlash : (q : Qos) → NoSlash (qos_text q)
unfolding no_slash
qos_text-NoSlash q =
    then_NoSlash (reliability_text q.reliability) b':' _ (reliability_text-NoSlash q.reliability)
      refl
      (then_NoSlash (durability_text q.durability) b':' _ (durability_text-NoSlash q.durability)
        refl
        (then_NoSlash (history_text q.history) b',' _ (history_text-NoSlash q.history) refl (
          append-NoSlash (depth_text (depth q.history))
            (b':' ∷ b',' ∷ b':' ∷ b',' ∷ b':' ∷ b',' ∷ b',' ∷ [])
            (depth_text-NoSlash (depth q.history))
            (no_slash-NoSlash (b':' ∷ b',' ∷ b':' ∷ b',' ∷ b':' ∷ b',' ∷ b',' ∷ []) refl))))
