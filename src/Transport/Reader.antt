-- ===== src/Transport/Reader.antt =====
-- The way each decoder of src/transport/codec.rs walks its slice: `pos`, and the bytes from there
-- on, `&buf[pos..]`. A step returns a value, the new `pos` and what is left.
pub mod Advance
use zenoh_ros2_nostd.Common.{
  ℕ, ◌+◌, ◌^◌, List, [], ◌∷◌, Bool, true, false, length, drop, ltb, leb, if◌then◌else◌, ok, err,
  panic, ◌>>=◌,
}
use zenoh_ros2_nostd.Error.{invalid_encoding, Wire}

-- `usize` of the targets (thumbv6m, riscv32, wasm32) has 32 bits. A slice is shorter than that, so
-- of the sums of positions only those with a length that was read can overflow.
abbrev pub usize_size : ℕ
usize_size = 2 ^ 32

abbrev pub Step : Type 0 → Type 0
Step A = ℕ → List ℕ → Wire (A × ℕ × List ℕ)

-- `if pos >= buf.len() { return Err(InvalidEncoding) } let b = buf[pos]; pos += 1`
unfoldable pub read_byte : Step ℕ
read_byte pos [] = err invalid_encoding
read_byte pos (b ∷ rest) = ok (b, pos + 1, rest)

-- `let (v, n) = f(&buf[pos..])?; pos += n`
unfoldable pub read_with : {A : Type 0} → (List ℕ → Wire (A × ℕ)) → Step A
read_with f pos rest = f rest >>= λ (v, n). ok (v, pos + n, drop n rest)

-- `if pos + n > buf.len() { return Err(InvalidEncoding) } pos += n`, for a length that was read.
unfoldable pub skip_bytes : ℕ → Step (Unit {0})
skip_bytes n pos rest =
    if leb usize_size (pos + n)
    then panic
    else (if ltb (length rest) n then err invalid_encoding else ok (tt, pos + n, drop n rest))

-- A part that stands there under a condition only.
unfoldable pub read_when : {A : Type 0} → Bool → A → Step A → Step A
read_when true absent f = f
read_when false absent f = λ pos rest. ok (absent, pos, rest)
