-- ===== src/Transport/Writer.antt =====
-- The way each encoder of src/transport/codec.rs fills the slice that it is given: a guard on the
-- room, a write at `pos`, and `pos += n`.
--
-- An encoder takes the slice `buf[pos..]` and answers what it wrote and what it left. So
-- `ok (w, r)` stands for `Ok(w.len())` with `w ++ r` in the slice, and `m ⨾ k` for
-- `pos += m(&mut buf[pos..])?; pos += k(&mut buf[pos..])?`. After an error nothing reads the slice.
use mathlib.Core.Path.{fun_ext}
use zenoh_ros2_nostd.Common.{
  ℕ, ◌≡◌, refl, List, [], ◌∷◌, ◌++◌, Bool, true, false, length, drop, drop-drop, length-append,
  length-drop, arith, ltb, lt→ltb, le→ltb, ◌≤◌, ◌<◌, if◌then◌else◌, ok, err, panic, ◌>>=◌,
}
use zenoh_ros2_nostd.Error.{frame_too_large, Wire}

abbrev pub Encoder : Type 0
Encoder = List ℕ → Wire (List ℕ × List ℕ)

-- `if pos >= buf.len() { return Err(FrameTooLarge) } buf[pos] = b; pos += 1`
unfoldable pub write_byte : ℕ → Encoder
write_byte b [] = err frame_too_large
write_byte b (x ∷ rest) = ok (b ∷ [], rest)

-- `if pos + n > buf.len() { return Err(FrameTooLarge) } buf[pos..pos + n].copy_from_slice(bytes)`
unfoldable pub write_slice : List ℕ → Encoder
write_slice bytes buf =
    if ltb (length buf) (length bytes)
    then err frame_too_large
    else ok (bytes, drop (length bytes) buf)

infixr 20 ◌⨾◌
unfoldable pub ◌⨾◌ : Encoder → Encoder → Encoder
◌⨾◌ m k buf = m buf >>= λ (w, r). k r >>= λ (w', r'). ok (w ++ w', r')

-- A part that is written under a condition only.
unfoldable pub write_when : Bool → Encoder → Encoder
write_when true m = m
write_when false m = λ buf. ok ([], buf)

pub write_byte-slice : (b : ℕ) → write_byte b ≡ write_slice (b ∷ [])
write_byte-slice b = fun_ext same
  where
    same : (buf : List ℕ) → write_byte b buf ≡ write_slice (b ∷ []) buf
    same [] = unfold write_byte write_slice in refl
    same (x ∷ rest) = unfold write_byte write_slice in ground arith

-- Two writes in a row are one write of both, errors included.
pub write_slice-append :
    (xs ys : List ℕ) → (write_slice xs ⨾ write_slice ys) ≡ write_slice (xs ++ ys)
write_slice-append xs ys = fun_ext same
  where
    same : (buf : List ℕ) → (write_slice xs ⨾ write_slice ys) buf ≡ write_slice (xs ++ ys) buf
    same buf =
        unfold write_slice ◌⨾◌ in
        ground (
          arith,
          length-append xs ys,
          length-drop (length xs) buf,
          drop-drop (length xs) (length ys) buf,
        )

pub write_slice_fits :
    (bytes buf : List ℕ)
    → length bytes ≤ length buf
    → write_slice bytes buf ≡ ok (bytes, drop (length bytes) buf)
unfolding write_slice
write_slice_fits bytes buf h = rw (le→ltb (length buf) (length bytes) h)

pub write_slice_full :
    (bytes buf : List ℕ) → length buf < length bytes → write_slice bytes buf ≡ err frame_too_large
unfolding write_slice
write_slice_full bytes buf h = rw (lt→ltb (length buf) (length bytes) h)

pub write_slice-ok :
    (bytes buf : List ℕ) {w r : List ℕ}
    → write_slice bytes buf ≡ ok (w, r)
    → (w ≡ bytes) × (r ≡ drop (length bytes) buf) × (length bytes ≤ length buf)
unfolding write_slice
write_slice-ok bytes buf h = ground arith

pub write_when-true : (m : Encoder) → write_when true m ≡ m
unfolding write_when
write_when-true m = refl

rebuild : (o : Wire (List ℕ × List ℕ)) → (o >>= λ (w, r). ok (w, r)) ≡ o
rebuild (ok (w, r)) = refl
rebuild (err e) = refl
rebuild panic = refl

-- A part that is left out.
pub write_when-false : (m k : Encoder) → (write_when false m ⨾ k) ≡ k
unfolding write_when ◌⨾◌
write_when-false m k = fun_ext (λ buf. rebuild (k buf))

pub write_slice-nil : write_slice [] ≡ (λ buf. ok ([], buf))
unfolding write_slice
write_slice-nil = fun_ext (λ buf. ground arith)
