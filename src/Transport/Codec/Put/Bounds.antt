-- ===== src/Transport/Codec/Put/Bounds.antt =====
-- `decode_push_put` of src/transport/codec.rs on any bytes.
use zenoh_ros2_nostd.Common.{
  ℕ, suc, ◌==◌, ◌+◌, ◌-◌, ◌%◌, ◌≤◌, ◌<◌, ◌≡◌, ap, ◌∙◌, List, [], ◌∷◌, Bool, true, false, Option,
  some, length, take, drop, arith, ok, >>=-eq-ok, Bool-cases, inl, inr,
}
use mathlib.Core.Path.{subst₂}
use zenoh_ros2_nostd.Error.{Wire}
use zenoh_ros2_nostd.Transport.Reader.{usize_size, read_byte, read_with, read_when}
use zenoh_ros2_nostd.Transport.Reader.Advance.{
  IsForward, both-IsForward, Advances-refl, Advances-trans, read_byte-IsForward,
  read_with-IsForward, skip_bytes-IsForward, read_when-IsForward, Cuts, Cuts-after, IsCut,
  Advances-by,
}
use zenoh_ros2_nostd.Transport.Vbyte.{decode_vbyte}
use zenoh_ros2_nostd.Transport.Vbyte.Decode.{decode_vbyte_bounds}
use zenoh_ros2_nostd.Transport.Slice.{decode_slice}
use zenoh_ros2_nostd.Transport.Slice.RoundTrip.{decode_slice_bounds}
use zenoh_ros2_nostd.Transport.Protocol.Ids.{network_push, zenoh_put}
use zenoh_ros2_nostd.Transport.Protocol.Flags.{flag_n, flag_z, put_t, put_e}
use zenoh_ros2_nostd.Transport.Codec.Header.{has_flag, msg_id}
use zenoh_ros2_nostd.Transport.Codec.Extension.{skip_extensions}
use zenoh_ros2_nostd.Transport.Codec.Extension.Skip.{skip_extensions-IsForward}
use zenoh_ros2_nostd.Transport.Codec.Put.{
  decode_push_put, read_suffix, read_timestamp, read_put_body, IncomingPut,
}

pub number-IsForward : IsForward (read_with decode_vbyte)
number-IsForward = read_with-IsForward decode_vbyte (λ buf a n e. (decode_vbyte_bounds buf a n e).3)

pub extensions-IsForward : (c : Bool) → IsForward (read_when c tt skip_extensions)
extensions-IsForward c = read_when-IsForward c tt skip_extensions skip_extensions-IsForward

cut_slice :
    (pos : ℕ) (rest bytes : List ℕ) (n : ℕ)
    → decode_slice rest ≡ ok (bytes, n)
    → Cuts pos rest bytes (pos + n) (drop n rest)
cut_slice pos rest bytes n read =
    let (small, shorter, header, part) = decode_slice_bounds rest bytes n read in
    record {
      moves = Advances-by pos n rest small;
      fits = omega arith;
      field =
          part
          ∙ ap (λ k. take (length bytes) (drop k rest)) {x = n - length bytes}
              {y = pos + n - pos - length bytes} (omega arith);
    }

pub slice-IsCut : IsCut (read_with decode_slice)
unfolding read_with
slice-IsCut pos rest bytes pos' rest' e =
    let ((v, n), read, moved) = >>=-eq-ok (decode_slice rest) _ e in
    ground (arith, cut_slice pos rest v n read, moved)

pub read_suffix-IsForward : (c : Bool) → IsForward (read_suffix c)
unfolding read_suffix
read_suffix-IsForward true pos rest a pos' rest' e =
    let ((bytes, p, r), cut, done) = >>=-eq-ok (read_with decode_slice pos rest) _ e in
    ground (arith, slice-IsCut pos rest bytes p r cut, done)
read_suffix-IsForward false pos rest a pos' rest' e = ground (arith, Advances-refl pos rest)

pub read_timestamp-IsForward : (c : Bool) → IsForward (read_timestamp c)
unfolding read_timestamp
read_timestamp-IsForward true pos rest a pos' rest' e =
    both-IsForward (read_with decode_vbyte) _ number-IsForward
      (λ t.
        both-IsForward (read_with decode_vbyte) _ number-IsForward
          (λ size. skip_bytes-IsForward (size % usize_size)))
      pos rest a pos' rest' e
read_timestamp-IsForward false pos rest a pos' rest' e = ground (arith, Advances-refl pos rest)

pub read_put_body-IsCut : (header : ℕ) → IsCut (read_put_body header)
unfolding read_put_body
read_put_body-IsCut header pos rest bytes pos' rest' e =
    let ((t, p1, r1), e1, f1) = >>=-eq-ok (read_timestamp (has_flag header put_t) pos rest) _ e in
    let ((n, p2, r2), e2, f2) =
      >>=-eq-ok (read_when (has_flag header put_e) 0 (read_with decode_vbyte) p1 r1) _ f1 in
    let ((u, p3, r3), e3, f3) =
      >>=-eq-ok (read_when (has_flag header flag_z) tt skip_extensions p2 r2) _ f2 in
    Cuts-after (read_timestamp-IsForward (has_flag header put_t) pos rest t p1 r1 e1) (
      Cuts-after
        (read_when-IsForward (has_flag header put_e) 0 (read_with decode_vbyte) number-IsForward p1
          r1 n p2 r2 e2)
        (Cuts-after (extensions-IsForward (has_flag header flag_z) p2 r2 u p3 r3 e3)
          (slice-IsCut p3 r3 bytes pos' rest' f3)))

-- The message starts at the buffer's first byte, so that the payload is a part of the buffer.
abbrev pub EndsWith : List ℕ → ℕ → List ℕ → Type 0
EndsWith buf pos payload =
    (pos ≤ length buf)
    × (length payload < pos)
    × (payload ≡ take (length payload) (drop (pos - length payload) buf))

pub cut-EndsWith :
    (header : ℕ) {rest bytes : List ℕ} {pos : ℕ} {rest' : List ℕ}
    → Cuts 1 rest bytes pos rest'
    → EndsWith (header ∷ rest) pos bytes
cut-EndsWith header {rest} {bytes} {pos} c = (
  omega (arith, c.moves.inside),
  omega (arith, c.fits),
  c.field
      ∙ ap (λ k. take (length bytes) (drop k (header ∷ rest))) {x = suc (pos - 1 - length bytes)}
          {y = pos - length bytes} (omega (arith, c.fits)),
)

found_EndsWith :
    (buf : List ℕ) (made put : IncomingPut) (p pos : ℕ)
    → ◌≡◌ {A = Wire (Option (IncomingPut × ℕ))} (ok (some (made, p))) (ok (some (put, pos)))
    → EndsWith buf p made.payload
    → EndsWith buf pos put.payload
found_EndsWith buf made put p pos same h =
    let found : made ≡ put = cc in
    let at : p ≡ pos = cc in subst₂ (λ m k. EndsWith buf k m.payload) found at h

-- Any bytes that `decode_push_put` accepts: the payload that it hands out lies inside the frame,
-- and ends where the message ends.
pub decode_push_put_bounds :
    (buf : List ℕ) (put : IncomingPut) (pos : ℕ)
    → decode_push_put buf ≡ ok (some (put, pos))
    → EndsWith buf pos put.payload
unfolding decode_push_put
decode_push_put_bounds [] put pos e = cc
decode_push_put_bounds (header ∷ rest) put pos e =
    elim (Bool-cases (msg_id header == network_push)) [
      | inl push ↦
          let ((scope, p1, r1), e1, f1) =
            >>=-eq-ok (read_with decode_vbyte 1 rest) _ (rw push at e) in
          let ((key, p2, r2), e2, f2) =
            >>=-eq-ok (read_suffix (has_flag header flag_n) p1 r1) _ f1 in
          let ((u, p3, r3), e3, f3) =
            >>=-eq-ok (read_when (has_flag header flag_z) tt skip_extensions p2 r2) _ f2 in
          let ((put_header, p4, r4), e4, f4) = >>=-eq-ok (read_byte p3 r3) _ f3 in
          let prefix = Advances-trans (number-IsForward 1 rest scope p1 r1 e1) (
            Advances-trans (read_suffix-IsForward (has_flag header flag_n) p1 r1 key p2 r2 e2) (
              Advances-trans (extensions-IsForward (has_flag header flag_z) p2 r2 u p3 r3 e3)
                (read_byte-IsForward p3 r3 put_header p4 r4 e4))) in
          elim (Bool-cases (msg_id put_header == zenoh_put)) [
            | inl is_put ↦
                let ((payload, p5, r5), e5, f5) =
                  >>=-eq-ok (read_put_body put_header p4 r4) _ (rw is_put at f4) in
                found_EndsWith (header ∷ rest) _ put p5 pos f5 (
                  cut-EndsWith header
                    (Cuts-after prefix (read_put_body-IsCut put_header p4 r4 payload p5 r5 e5)))
            | inr other ↦ cc (rw other at f4)
          ]
      | inr other ↦ cc (rw other at e)
    ]
