-- ===== src/Transport/Codec/Extension.antt =====
-- `skip_extensions` of src/transport/codec.rs, and the same loop inside `decode_init_ack`.
pub mod Skip
pub mod Chain
use mathlib.Core.WellFounded.{Acc, WellFounded}
use zenoh_ros2_nostd.Common.{
  ℕ, zero, suc, ◌+◌, ◌/◌, ◌^◌, ◌≤◌, ◌<◌, bit_and, List, [], ◌∷◌, Bool, true, false, ◌||◌, length,
  drop, length-drop, ◌==◌, if◌then◌else◌, ok, ◌>>=◌, arith,
}
use zenoh_ros2_nostd.Error.{Wire}
use zenoh_ros2_nostd.Transport.Reader.{Step}
use zenoh_ros2_nostd.Transport.Vbyte.{decode_vbyte}
use zenoh_ros2_nostd.Transport.Slice.{decode_slice}

abbrev pub Shorter : List ℕ → List ℕ → Type 0
Shorter r s = length r < length s

shorter_acc : (k : ℕ) (l : List ℕ) → length l < k → Acc Shorter l
shorter_acc zero l h = absurd (omega arith)
shorter_acc (suc k) l h = Acc.intro l (λ m hm. shorter_acc k m (omega arith))

unfoldable pub shorter_wf : WellFounded Shorter
unfolding shorter_acc
shorter_wf = record { apply = λ l. shorter_acc (suc (length l)) l (omega arith) }

abbrev pub drop-Shorter : (b n : ℕ) (rest : List ℕ) → Shorter (drop n rest) (b ∷ rest)
drop-Shorter b n rest = omega (arith, length-drop n rest)

-- `let (_, n) = f(&buf[*pos..])?;`
unfoldable pub taken : {A : Type 0} → (List ℕ → Wire (A × ℕ)) → List ℕ → Wire ℕ
taken f rest = f rest >>= λ (v, n). ok n

-- The bytes that the body of an extension takes, by the two bits of its encoding.
unfoldable pub ext_body : ℕ → List ℕ → Wire ℕ
ext_body encoding rest =
    if encoding == 0
    then ok 0
    else (if encoding == 1
        then taken decode_vbyte rest
        else (if encoding == 2 || encoding == 3 then taken decode_slice rest else ok 0))

-- `while *pos < buf.len()`: each round takes a byte at least.
unfoldable pub skip_loop : ℕ → (rest : List ℕ) → Acc Shorter rest → Wire (Unit {0} × ℕ × List ℕ)
skip_loop pos [] w = ok (tt, pos, [])
skip_loop pos (ext ∷ rest) (Acc.intro _ smaller) =
    ext_body (bit_and (ext / 2 ^ 5) 0x03) rest >>= λ n. elim (bit_and ext 0x80 == 0) [
      | true ↦ ok (tt, pos + 1 + n, drop n rest)
      | false ↦
          skip_loop (pos + 1 + n) (drop n rest) (smaller (drop n rest) (drop-Shorter ext n rest))
    ]

unfoldable pub skip_extensions : Step (Unit {0})
unfolding skip_loop shorter_wf
skip_extensions pos rest = skip_loop pos rest (shorter_wf.apply rest)
