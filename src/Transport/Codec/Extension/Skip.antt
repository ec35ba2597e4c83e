-- ===== src/Transport/Codec/Extension/Skip.antt =====
-- `skip_extensions` over a chain of extensions, and on any bytes.
use mathlib.Core.WellFounded.{Acc}
use zenoh_ros2_nostd.Common.{
  ℕ, ◌+◌, ◌/◌, ◌^◌, ◌≤◌, ◌<◌, ◌≡◌, refl, sym, ap, ◌∙◌, bit_and, List, [], ◌∷◌, ◌++◌, true, false,
  length, drop, drop_front, arith, ok, >>=-eq-ok, ◌==◌, Bool-cases, inl, inr, ◌>>=◌,
}
use zenoh_ros2_nostd.Transport.Reader.{usize_size}
use zenoh_ros2_nostd.Error.{Wire}
use zenoh_ros2_nostd.Transport.Reader.Advance.{
  Advances, Advances-first, Advances-refl, Advances-trans, IsForward,
}
use zenoh_ros2_nostd.Transport.Vbyte.{u64_size, decode_vbyte}
use zenoh_ros2_nostd.Transport.Slice.{decode_slice}
use zenoh_ros2_nostd.Transport.Vbyte.Encode.{vbyte}
use zenoh_ros2_nostd.Transport.Vbyte.Decode.{decode_vbyte-vbyte, decode_vbyte_bounds}
use zenoh_ros2_nostd.Transport.Slice.RoundTrip.{
  slice_image, decode_slice-slice_image, decode_slice_bounds,
}
use zenoh_ros2_nostd.Transport.Codec.Extension.{
  Shorter, shorter_wf, taken, ext_body, skip_loop, skip_extensions, drop-Shorter,
}

-- An extension with an opaque body, at the end of a chain: bits 6 and 5 are 0b10 or 0b11.
pub skip_last_buffer :
    (ext pos : ℕ) (body rest : List ℕ)
    → bit_and ext 0x80 ≡ 0
    → bit_and (ext / 2 ^ 5) 0x03 ≡ 2
    → length body + 10 < usize_size
    → skip_extensions pos (ext ∷ (slice_image body ++ rest))
      ≡ ok (tt, pos + 1 + length (slice_image body), rest)
unfolding skip_extensions ext_body taken
skip_last_buffer ext pos body rest last buffer h =
    rw (buffer, decode_slice-slice_image body rest h, last, drop_front (slice_image body) rest)

-- One with a number for a body.
pub skip_last_number :
    (ext pos number : ℕ) (rest : List ℕ)
    → bit_and ext 0x80 ≡ 0
    → bit_and (ext / 2 ^ 5) 0x03 ≡ 1
    → number < u64_size
    → skip_extensions pos (ext ∷ (vbyte number ++ rest))
      ≡ ok (tt, pos + 1 + length (vbyte number), rest)
unfolding skip_extensions ext_body taken
skip_last_number ext pos number rest last z64 h =
    rw (z64, decode_vbyte-vbyte number rest h, last, drop_front (vbyte number) rest)

taken_bounds :
    {A : Type 0} (f : List ℕ → Wire (A × ℕ)) (rest : List ℕ) (n : ℕ)
    → ((a : A) → f rest ≡ ok (a, n) → n ≤ length rest)
    → taken f rest ≡ ok n
    → n ≤ length rest
unfolding taken
taken_bounds f rest n small e =
    let ((v, k), read, done) = >>=-eq-ok (f rest) (λ (v, k). ok k) e in
    let same : k ≡ n = ground arith in small v (read ∙ ap (λ t. ok (v, t)) same)

ext_body_bounds :
    (encoding : ℕ) (rest : List ℕ) (n : ℕ) → ext_body encoding rest ≡ ok n → n ≤ length rest
unfolding ext_body
ext_body_bounds encoding rest n e = ground (
  arith,
  taken_bounds decode_vbyte rest n (λ a read. (decode_vbyte_bounds rest a n read).3),
  taken_bounds decode_slice rest n (λ a read. (decode_slice_bounds rest a n read).0),
)

-- One round of the loop.
pub skip_loop-cons :
    (pos ext : ℕ) (rest : List ℕ) (smaller : (r : List ℕ) → Shorter r (ext ∷ rest) → Acc Shorter r)
    → skip_loop pos (ext ∷ rest) (Acc.intro (ext ∷ rest) smaller) ≡ (
        ext_body (bit_and (ext / 2 ^ 5) 0x03) rest >>= λ n. elim (bit_and ext 0x80 == 0) [
          | true ↦ ok (tt, pos + 1 + n, drop n rest)
          | false ↦
              skip_loop
                (pos + 1 + n)
                (drop n rest)
                (smaller (drop n rest) (drop-Shorter ext n rest))
        ])
unfolding skip_loop
skip_loop-cons pos ext rest smaller = refl

skip_loop-Advances :
    (pos : ℕ) (rest : List ℕ) (w : Acc Shorter rest) (pos' : ℕ) (rest' : List ℕ)
    → skip_loop pos rest w ≡ ok (tt, pos', rest')
    → Advances pos rest pos' rest'
skip_loop-Advances pos [] w pos' rest' e = unfold skip_loop in ground (arith, Advances-refl pos [])
skip_loop-Advances pos (ext ∷ rest) (Acc.intro _ smaller) pos' rest' e =
    let (n, body, next) =
      >>=-eq-ok (ext_body (bit_and (ext / 2 ^ 5) 0x03) rest) _
        (sym (skip_loop-cons pos ext rest smaller) ∙ e) in
    let first : Advances pos (ext ∷ rest) (pos + 1 + n) (drop n rest) =
      Advances-first pos ext n rest (ext_body_bounds (bit_and (ext / 2 ^ 5) 0x03) rest n body) in
    elim (Bool-cases (bit_and ext 0x80 == 0)) [
      | inl last ↦ ground (arith, first, rw last at next)
      | inr more ↦ Advances-trans first (
          skip_loop-Advances (pos + 1 + n) (drop n rest)
            (smaller (drop n rest) (drop-Shorter ext n rest)) pos' rest' (rw more at next))
    ]

pub skip_extensions-IsForward : IsForward skip_extensions
unfolding skip_extensions
skip_extensions-IsForward pos rest a pos' rest' e =
    skip_loop-Advances pos rest (shorter_wf.apply rest) pos' rest' e
