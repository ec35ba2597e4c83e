-- ===== src/Transport/Codec/Extension/Chain.antt =====
-- A chain of extensions as a router sends it, and how `skip_extensions` moves over it.
use mathlib.Core.WellFounded.{Acc}
use mathlib.Core.Path.{subst}
use zenoh_ros2_nostd.Common.{
  ℕ, ◌+◌, ◌/◌, ◌^◌, ◌<◌, ◌≡◌, refl, ap, sym, ◌∙◌, bit_and, List, [], ◌∷◌, ◌++◌, append_assoc, Bool,
  true, false, All, length, length-append, drop, drop_front, arith, ok, ◌==◌, ==→eq, ◌%◌,
}
use zenoh_ros2_nostd.Common.Bits.{top_bit, holds_below, from_table}
use zenoh_ros2_nostd.Transport.Reader.{usize_size, read_when}
use zenoh_ros2_nostd.Transport.Vbyte.{u64_size}
use zenoh_ros2_nostd.Transport.Vbyte.Encode.{vbyte}
use zenoh_ros2_nostd.Transport.Vbyte.Decode.{decode_vbyte-vbyte}
use zenoh_ros2_nostd.Transport.Slice.RoundTrip.{slice_image, decode_slice-slice_image}
use zenoh_ros2_nostd.Transport.Codec.Extension.{
  Shorter, shorter_wf, taken, ext_body, skip_loop, skip_extensions, drop-Shorter,
}
use zenoh_ros2_nostd.Transport.Codec.Extension.Skip.{skip_loop-cons}

-- An extension has an identifier of five bits, and no body, a number or an opaque field.
pub data Extension : Type 0 where
  plain : ℕ → Extension
  numeric : ℕ → ℕ → Extension
  opaque_field : ℕ → List ℕ → Extension

abbrev pub IsExtension : Extension → Type 0
IsExtension (plain id) = id < 32
IsExtension (numeric id v) = (id < 32) × (v < u64_size)
IsExtension (opaque_field id bytes) = (id < 32) × (length bytes + 10 < usize_size)

abbrev pub code : Extension → ℕ
code (plain id) = id
code (numeric id v) = 0x20 + id
code (opaque_field id bytes) = 0x40 + id

abbrev pub body : Extension → List ℕ
body (plain id) = []
body (numeric id v) = vbyte v
body (opaque_field id bytes) = slice_image bytes

-- The top bit of a header says that another extension follows.
abbrev pub chain : Extension → List Extension → List ℕ
chain e [] = code e ∷ body e
chain e (f ∷ fs) = (0x80 + code e) ∷ (body e ++ chain f fs)

abbrev pub chain_image : List Extension → List ℕ
chain_image [] = []
chain_image (e ∷ es) = chain e es

-- The flag of a message with extensions.
abbrev pub extended : List Extension → Bool
extended [] = false
extended (e ∷ es) = true

code_small : (e : Extension) → IsExtension e → code e < 128
code_small (plain id) h = omega arith
code_small (numeric id v) (h, hv) = omega arith
code_small (opaque_field id bytes) (h, hv) = omega arith

body_taken :
    (e : Extension) (rest : List ℕ)
    → IsExtension e
    → (encoding : ℕ) → encoding ≡ code e / 32
    → ext_body encoding (body e ++ rest) ≡ ok (length (body e))
unfolding ext_body taken
body_taken (plain id) rest h encoding same =
    let zero_bits : encoding ≡ 0 = omega arith in rw zero_bits refl
body_taken (numeric id v) rest (h, hv) encoding same =
    let bits : encoding ≡ 1 = omega arith in rw (bits, decode_vbyte-vbyte v rest hv) refl
body_taken (opaque_field id bytes) rest (h, hb) encoding same =
    let bits : encoding ≡ 2 = omega arith in rw (bits, decode_slice-slice_image bytes rest hb) refl

low_table : holds_below 8 (λ n. bit_and n 3 == n % 4) ≡ true
unfolding holds_below
low_table = refl

low_two : (n : ℕ) → n < 8 → bit_and n 0x03 ≡ n % 4
low_two n h = ==→eq _ _ (from_table 8 _ n low_table h)

-- The header of an extension, at the end of a chain and before another one.
code_last :
    (e : Extension)
    → IsExtension e
    → (bit_and (code e / 2 ^ 5) 0x03 ≡ code e / 32) × (bit_and (code e) 0x80 ≡ 0)
code_last e h =
    let small = code_small e h in
    (
      low_two (code e / 32) (omega arith) ∙ omega arith,
      top_bit (code e) (omega arith) ∙ omega arith,
    )

code_more :
    (e : Extension)
    → IsExtension e
    → (bit_and ((0x80 + code e) / 2 ^ 5) 0x03 ≡ code e / 32) × (bit_and (0x80 + code e) 0x80 ≡ 128)
code_more e h =
    let small = code_small e h in
    (
      low_two ((0x80 + code e) / 32) (omega arith) ∙ omega arith,
      top_bit (0x80 + code e) (omega arith) ∙ omega arith,
    )

skip_loop-chain :
    (e : Extension) (es : List Extension) (pos : ℕ) (rest : List ℕ)
    (w : Acc Shorter (chain e es ++ rest))
    → All IsExtension (e ∷ es)
    → skip_loop pos (chain e es ++ rest) w ≡ ok (tt, pos + length (chain e es), rest)
skip_loop-chain e [] pos rest (Acc.intro _ smaller) (h, hs) =
    let (encoding, top) = code_last e h in
    rw
      (
        skip_loop-cons pos (code e) (body e ++ rest) smaller,
        encoding,
        body_taken e rest h (code e / 32) refl,
        top,
        drop_front (body e) rest,
      )
      (ground arith)
skip_loop-chain e (f ∷ fs) pos rest (Acc.intro _ smaller) (h, hs) =
    let (encoding, top) = code_more e h in
    let n = length (body e) in
    let tail = (body e ++ chain f fs) ++ rest in
    let left : drop n tail ≡ chain f fs ++ rest =
      ap (drop n) (append_assoc (body e) (chain f fs) rest)
      ∙ drop_front (body e) (chain f fs ++ rest) in
    let body' : ext_body (code e / 32) tail ≡ ok n =
      ap (ext_body (code e / 32)) (append_assoc (body e) (chain f fs) rest)
      ∙ body_taken e (chain f fs ++ rest) h (code e / 32) refl in
    let next =
      subst
        (λ l.
          (w : Acc Shorter l)
          → skip_loop (pos + 1 + n) l w ≡ ok (tt, pos + 1 + n + length (chain f fs), rest))
        (sym left) (λ w. skip_loop-chain f fs (pos + 1 + n) rest w hs)
        (smaller (drop n tail) (drop-Shorter (0x80 + code e) n tail)) in
    rw (skip_loop-cons pos (0x80 + code e) tail smaller, encoding, body', top, next)
      (ground (arith, length-append (body e) (chain f fs)))

-- The step of a decoder over the extensions that a flag announces.
pub read_when-chain_image :
    (es : List Extension) (pos : ℕ) (rest : List ℕ)
    → All IsExtension es
    → read_when (extended es) tt skip_extensions pos (chain_image es ++ rest)
      ≡ ok (tt, pos + length (chain_image es), rest)
unfolding read_when skip_extensions
read_when-chain_image [] pos rest h = ground arith
read_when-chain_image (e ∷ es) pos rest h =
    skip_loop-chain e es pos rest (shorter_wf.apply (chain e es ++ rest)) h
