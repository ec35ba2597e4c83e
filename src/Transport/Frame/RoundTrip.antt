-- ===== src/Transport/Frame/RoundTrip.antt =====
-- What a frame is on the wire, over any link that keeps its promises.
use zenoh_ros2_nostd.Common.{
  ℕ, suc, ◌≤◌, ◌<◌, ◌≡◌, refl, ap, ◌∙◌, List, [], ◌∷◌, ◌++◌, append_assoc, Bool, true, false, some,
  length, length-append, take, drop, take_front, drop_front, le→ltb, lt→ltb, ne→==, ltb, arith, ok,
  err, fail_if,
}
use zenoh_ros2_nostd.Common.Words.{le_bytes, from_le_bytes, from_le_bytes-le_bytes}
use zenoh_ros2_nostd.Error.{frame_too_large}
use zenoh_ros2_nostd.Transport.Link.{Link, Promises, >>=-ran, >>=-from_ok, pure}
use zenoh_ros2_nostd.Transport.Frame.{
  try_write, try_read, io_result, io_bytes, write_frame, read_frame, read_body,
}

abbrev pub frame_image : List ℕ → List ℕ
frame_image payload = le_bytes 2 (length payload) ++ payload

pub io_result-ok : (b : Bool) → io_result b ≡ ok tt → b ≡ true
io_result-ok true e = refl
io_result-ok false e = cc

module _ (link : Link) (p : Promises link) where
  open link use {State}

  -- A frame that is written without an error is sent as its length and its bytes, and leaves what
  -- is there to be read.
  pub write_frame-sent :
      (payload : List ℕ) (l : State)
      → (write_frame link payload l).0 ≡ ok tt
      → (p.sent (write_frame link payload l).1 ≡ p.sent l ++ frame_image payload)
        × (p.input (write_frame link payload l).1 ≡ p.input l)
  unfolding write_frame
  write_frame-sent payload l e =
      let header = le_bytes 2 (length payload) in
      let (u0, e0, n0, f0) =
        >>=-ran (pure (fail_if (ltb 0xffff (length payload)) frame_too_large)) _ l e in
      let (u1, e1, n1, f1) = >>=-ran (try_write link header) _ l n0 in
      let l1 = (link.write_all header l).1 in
      let (u2, e2, n2, f2) = >>=-ran (try_write link payload) _ l1 n1 in
      let l2 = (link.write_all payload l1).1 in
      let whole = ap (λ t. t.1) (f0 ∙ f1 ∙ f2) in
      let sent1 = p.write_all-sent header l (io_result-ok (link.write_all header l).0 e1) in
      let sent2 = p.write_all-sent payload l1 (io_result-ok (link.write_all payload l1).0 e2) in
      (
        ap p.sent whole
            ∙ p.flush-sent l2
            ∙ sent2
            ∙ ap (λ t. t ++ payload) sent1
            ∙ append_assoc (p.sent l) header payload,
        ap p.input whole
            ∙ p.flush-input l2
            ∙ p.write_all-input payload l1
            ∙ p.write_all-input header l,
      )

  -- A message that is too long for the u16 is refused, and nothing is sent.
  pub write_frame_too_long :
      (payload : List ℕ) (l : State)
      → 0xffff < length payload
      → write_frame link payload l ≡ (err frame_too_large, l)
  unfolding write_frame
  write_frame_too_long payload l h = rw (lt→ltb 0xffff (length payload) h)

  -- Bytes that are next to be read are read.
  read_next :
      (bytes rest : List ℕ) (l : State)
      → p.input l ≡ bytes ++ rest
      → ((try_read link (length bytes) l).0 ≡ ok bytes)
        × (p.input (try_read link (length bytes) l).1 ≡ rest)
        × (p.sent (try_read link (length bytes) l).1 ≡ p.sent l)
  read_next bytes rest l e =
      let enough : length bytes ≤ length (p.input l) =
        omega (arith, ap length e, length-append bytes rest) in
      (
        ap io_bytes (
            p.read_exact-some (length bytes) l enough
            ∙ ap (λ t. some (take (length bytes) t)) e
            ∙ ap some (take_front bytes rest)),
        p.read_exact-input (length bytes) l enough
            ∙ ap (drop (length bytes)) e
            ∙ drop_front bytes rest,
        p.read_exact-sent (length bytes) l,
      )

  read_body_next :
      (size : ℕ) (payload rest : List ℕ) (l : State)
      → length payload ≤ size
      → p.input l ≡ payload ++ rest
      → ((read_body link size (length payload) l).0 ≡ ok payload)
        × (p.input (read_body link size (length payload) l).1 ≡ rest)
        × (p.sent (read_body link size (length payload) l).1 ≡ p.sent l)
  unfolding read_body
  read_body_next size [] rest l room e = (refl, e, refl)
  read_body_next size (x ∷ xs) rest l room e =
      rw (ne→== (suc (length xs)) 0 (omega arith), le→ltb size (suc (length xs)) room)
        (read_next (x ∷ xs) rest l e)

  -- A message whose frame is next to be read comes out as it was written, and what stands behind
  -- the frame is next, where the message fits the buffer and the u16; nothing is sent.
  pub read_frame-frame_image :
      (size : ℕ) (payload rest : List ℕ) (l : State)
      → length payload ≤ 0xffff
      → length payload ≤ size
      → p.input l ≡ frame_image payload ++ rest
      → ((read_frame link size l).0 ≡ ok payload)
        × (p.input (read_frame link size l).1 ≡ rest)
        × (p.sent (read_frame link size l).1 ≡ p.sent l)
  unfolding read_frame
  read_frame-frame_image size payload rest l short room e =
      let header = le_bytes 2 (length payload) in
      let (got, left, quiet) =
        read_next header (payload ++ rest) l (e ∙ append_assoc header payload rest) in
      let n : from_le_bytes header ≡ length payload =
        from_le_bytes-le_bytes 2 (length payload) (omega arith) in
      let (a, b, c) = read_body_next size payload rest (link.read_exact 2 l).1 room left in
      rw (>>=-from_ok (try_read link 2) (λ h. read_body link size (from_le_bytes h)) l got, n)
        (a, b, c ∙ quiet)

-- A link on which no write and no flush fails.
pub record IsWritable (link : Link) : Type 0 where
  pub writes : (bytes : List ℕ) (l : link.State) → (link.write_all bytes l).0 ≡ true
  pub flushes : (l : link.State) → (link.flush l).0 ≡ true

pub write_frame-ok :
    (link : Link)
    → IsWritable link
    → (payload : List ℕ) (l : link.State) → length payload ≤ 0xffff
    → (write_frame link payload l).0 ≡ ok tt
unfolding write_frame
write_frame-ok link writable payload l h = rw (
  le→ltb 0xffff (length payload) h,
  writable.writes (le_bytes 2 (length payload)) l,
  writable.writes payload (link.write_all (le_bytes 2 (length payload)) l).1,
  writable.flushes (link.write_all payload (link.write_all (le_bytes 2 (length payload)) l).1).1,
)
