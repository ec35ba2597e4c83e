-- ===== src/Transport/Fragment/Refine.antt =====
-- The assembler, and the list of the bytes of the message in flight.
use zenoh_ros2_nostd.Common.{
  ℕ, ◌+◌, ◌≤◌, ◌≡◌, ap, sym, ◌∙◌, List, [], ◌∷◌, ◌++◌, append_assoc, Bool, true, false, Option,
  none, some, length, length-append, length-take, length-drop, take, drop, length-replicate,
  take_front, ltb, le→ltb, arith, if◌then◌else◌, ok, err,
}
use zenoh_ros2_nostd.Error.{frame_too_large, Wire}
use zenoh_ros2_nostd.Transport.Fragment.{FragmentAssembler, begin, reset, copy_into, new, feed}

-- The bytes of the message in flight, if there is one.
abbrev pub Pending : Type 0
Pending = Option (List ℕ)

abbrev pub gathered : Pending → List ℕ
gathered none = []
gathered (some bytes) = bytes

abbrev pub pending : FragmentAssembler → Pending
pending a = if a.active then some (take a.len a.buf) else none

module _ (cap : ℕ) where
  -- What `feed` does to the message in flight.
  abbrev pub gather : Pending → Bool → List ℕ → Wire (Option (List ℕ)) × Pending
  gather p more payload =
      let bytes = gathered p ++ payload in
      if ltb cap (length bytes)
      then (err frame_too_large, none)
      else (if more then (ok none, some bytes) else (ok (some bytes), none))

  pub record IsValid (a : FragmentAssembler) : Type 0 where
    pub size : length a.buf ≡ cap
    pub within : a.len ≤ cap

  pub new-IsValid : IsValid (new cap)
  unfolding new
  new-IsValid = omega (arith, length-replicate {A = ℕ} cap 0)

  length-copy_into :
      (buf : List ℕ) (from : ℕ) (payload : List ℕ)
      → from + length payload ≤ length buf
      → length (copy_into buf from payload) ≡ length buf
  unfolding copy_into
  length-copy_into buf from payload h = omega (
    arith,
    length-append (take from buf) (payload ++ drop (from + length payload) buf),
    length-append payload (drop (from + length payload) buf),
    length-take from buf,
    length-drop (from + length payload) buf,
  )

  -- `feed` keeps the size of the buffer and stays inside it, on every branch.
  pub feed-IsValid :
      (a : FragmentAssembler) (more : Bool) (payload : List ℕ)
      → IsValid a
      → IsValid (feed cap a more payload).1
  unfolding feed
  feed-IsValid a more payload v =
      ground (arith, length-copy_into a.buf a.len payload, length-copy_into a.buf 0 payload)

take-copy_into :
    (buf : List ℕ) (from : ℕ) (payload : List ℕ)
    → from ≤ length buf
    → take (from + length payload) (copy_into buf from payload) ≡ take from buf ++ payload
unfolding copy_into
take-copy_into buf from payload h =
    let front : List ℕ = take from buf ++ payload in
    let size : from + length payload ≡ length front =
      omega (arith, length-append (take from buf) payload, length-take from buf) in
    ap (λ l. take (from + length payload) l)
      (sym (append_assoc (take from buf) payload (drop (from + length payload) buf)))
    ∙ ap (λ k. take k (front ++ drop (from + length payload) buf)) size
    ∙ take_front front (drop (from + length payload) buf)

-- In a valid assembler `feed` answers, and leaves in flight, what `gather` says of the bytes in
-- flight: the whole message with its last fragment, and an error with nothing in flight where the
-- message would pass `cap`.
pub feed_refines :
    (cap : ℕ) (a : FragmentAssembler) (more : Bool) (payload : List ℕ)
    → IsValid cap a
    → let (answer, b) = feed cap a more payload in
      (answer, pending b) ≡ gather cap (pending a) more payload
unfolding feed begin reset
feed_refines cap a more payload v = ground (
  arith,
  take-copy_into a.buf a.len payload,
  take-copy_into a.buf 0 payload,
  length-append (take a.len a.buf) payload,
  length-take a.len a.buf,
)

-- A message in fragments: all but the last with the M flag.
unfoldable pub feed_all :
    ℕ → FragmentAssembler → List (List ℕ) → List ℕ → Wire (Option (List ℕ)) × FragmentAssembler
feed_all cap a [] last = feed cap a false last
feed_all cap a (first ∷ rest) last = feed_all cap (feed cap a true first).1 rest last

abbrev pub joined : List (List ℕ) → List ℕ → List ℕ
joined [] last = last
joined (first ∷ rest) last = first ++ joined rest last

feed_more :
    (cap : ℕ) (a : FragmentAssembler) (first : List ℕ)
    → IsValid cap a
    → length (gathered (pending a) ++ first) ≤ cap
    → pending (feed cap a true first).1 ≡ some (gathered (pending a) ++ first)
feed_more cap a first v h =
    ap (λ p. p.1) (feed_refines cap a true first v)
    ∙ rw (le→ltb cap (length (gathered (pending a) ++ first)) h)

-- A message that arrives in any number of fragments and fits the buffer comes out whole with its
-- last fragment, behind what was in flight before, and nothing is in flight then.
pub feed_all-joined :
    (cap : ℕ) (a : FragmentAssembler) (fragments : List (List ℕ)) (last : List ℕ)
    → IsValid cap a
    → length (gathered (pending a) ++ joined fragments last) ≤ cap
    → let (answer, b) = feed_all cap a fragments last in
      (answer ≡ ok (some (gathered (pending a) ++ joined fragments last))) × (pending b ≡ none)
unfolding feed_all
feed_all-joined cap a [] last v h = ground (arith, feed_refines cap a false last v)
feed_all-joined cap a (first ∷ rest) last v h =
    let before = gathered (pending a) in
    let b = (feed cap a true first).1 in
    let assoc = append_assoc before first (joined rest last) in
    let fits : length (before ++ first) ≤ cap = omega (
      arith,
      length-append before (first ++ joined rest last),
      length-append first (joined rest last),
      length-append before first,
    ) in
    let held : gathered (pending b) ++ joined rest last ≡ before ++ (first ++ joined rest last) =
      ap (λ p. gathered p ++ joined rest last) (feed_more cap a first v fits) ∙ assoc in
    let (answer, idle) =
      feed_all-joined cap b rest last (feed-IsValid cap a true first v) (rw held h) in
    (answer ∙ ap (λ l. ok (some l)) held, idle)
