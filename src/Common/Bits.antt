-- ===== src/Common/Bits.antt =====
-- The bit operations of the wire format as arithmetic: `|` of disjoint fields at every width, and
-- the masks that cut a byte in two.
use Prim.Native.Nat.{
  ℕ, zero, suc, ◌+◌, ◌*◌, ◌/◌, ◌%◌, ◌^◌, ◌≤◌, ◌<◌, max, bit_and, bit_or, digits, bit_or-bitwise,
  bit_and-bitwise, min, ◌-◌,
}
use mathlib.Core.Path.{◌≡◌, refl, ap, ◌∙◌}
use mathlib.Core.Bool.{Bool, true, ◌&&◌}
use native.Mathlib.Nat.{pow-suc, one-le-pow}
use native.Mathlib.Omega.{arith}
use zenoh_ros2_nostd.Common.Tests.{◌==◌, ==→eq}

-- A law of bytes is a table: every value below a bound is tried.
unfoldable pub holds_below : ℕ → (ℕ → Bool) → Bool
holds_below zero law = true
holds_below (suc n) law = law n && holds_below n law

pub from_table : (n : ℕ) (law : ℕ → Bool) (x : ℕ) → holds_below n law ≡ true → x < n → law x ≡ true
unfolding holds_below
from_table zero law x t h = absurd (omega arith)
from_table (suc n) law x t h = ground (arith, from_table n law x)

seven_table : holds_below 256 (λ x. bit_and x 0x7f == x % 128) ≡ true
unfolding holds_below
seven_table = refl

pub low_seven : (x : ℕ) → x < 256 → bit_and x 0x7f ≡ x % 128
low_seven x h = ==→eq _ _ (from_table 256 _ x seven_table h)

top_table : holds_below 256 (λ x. bit_and x 0x80 == x / 128 * 128) ≡ true
unfolding holds_below
top_table = refl

pub top_bit : (x : ℕ) → x < 256 → bit_and x 0x80 ≡ x / 128 * 128
top_bit x h = ==→eq _ _ (from_table 256 _ x top_table h)

set_table : holds_below 128 (λ x. bit_or x 0x80 == x + 128) ≡ true
unfolding holds_below
set_table = refl

pub set_top : (x : ℕ) → x < 128 → bit_or x 0x80 ≡ x + 128
set_top x h = ==→eq _ _ (from_table 128 _ x set_table h)

-- The recursion that `bit_or` stands for, with any fuel that reaches the first number.
abbrev or_with : ℕ → ℕ → ℕ → ℕ
or_with fuel a b = digits (λ d. d) max fuel a b

or_with_enough : (j k a b : ℕ) → a ≤ j → a ≤ k → or_with j a b ≡ or_with k a b
or_with_enough zero zero a b p q = refl
or_with_enough (suc j) (suc k) zero b p q = refl
or_with_enough zero (suc k) zero b p q = refl
or_with_enough (suc j) zero zero b p q = refl
or_with_enough zero k (suc a) b p q = absurd (omega arith)
or_with_enough (suc j) zero (suc a) b p q = absurd (omega arith)
or_with_enough (suc j) (suc k) (suc a) b p q =
    ap (λ d. d * 2 + max (suc a % 2) (b % 2))
      (or_with_enough j k (suc a / 2) (b / 2) (omega arith) (omega arith))

-- One binary digit of `|`.
bit_or_halves : (a b : ℕ) → bit_or a b ≡ bit_or (a / 2) (b / 2) * 2 + max (a % 2) (b % 2)
bit_or_halves zero b = omega (arith, bit_or-bitwise zero b, bit_or-bitwise (zero / 2) (b / 2))
bit_or_halves (suc a) b = omega (
  arith,
  bit_or-bitwise (suc a) b,
  bit_or-bitwise (suc a / 2) (b / 2),
  or_with_enough a (suc a / 2) (suc a / 2) (b / 2) (omega arith) (omega arith),
)

zero-bit_or : (b : ℕ) → bit_or 0 b ≡ b
zero-bit_or b = bit_or-bitwise 0 b

-- `low | (high << k)` is a sum where `low` fits k bits.
pub bit_or-shifted : (k low high : ℕ) → low < 2 ^ k → bit_or low (high * 2 ^ k) ≡ low + high * 2 ^ k
bit_or-shifted zero zero high h = omega (arith, zero-bit_or (high * 2 ^ 0))
bit_or-shifted zero (suc low) high h = absurd (omega arith)
bit_or-shifted (suc k) low high h = ground (
  arith,
  bit_or_halves low (high * 2 ^ suc k),
  ap (λ (t : ℕ). high * t) (pow-suc 2 k),
  pow-suc 2 k,
  bit_or-shifted k (low / 2) high,
)

-- `&` with no bits, and with the k lowest ones.
and_with_zero : (fuel a : ℕ) → digits (λ d. zero) min fuel a 0 ≡ 0
and_with_zero zero a = refl
and_with_zero (suc n) zero = refl
and_with_zero (suc n) (suc a) = omega (arith, and_with_zero n (suc a / 2))

half_mask : (k : ℕ) → (2 ^ suc k - 1) / 2 ≡ 2 ^ k - 1
half_mask k = omega (arith, pow-suc 2 k, one-le-pow k 2)

odd_mask : (k : ℕ) → (2 ^ suc k - 1) % 2 ≡ 1
odd_mask k = omega (arith, pow-suc 2 k, one-le-pow k 2)

and_with_mask :
    (fuel k a q r : ℕ)
    → a ≤ fuel
    → a ≡ q * 2 ^ k + r
    → r < 2 ^ k
    → digits (λ d. zero) min fuel a (2 ^ k - 1) ≡ r
and_with_mask zero k a q r p e h = omega arith
and_with_mask (suc n) k zero q r p e h = omega arith
and_with_mask (suc n) zero (suc a) q r p e h = omega (arith, and_with_zero (suc n) (suc a))
and_with_mask (suc n) (suc k) (suc a) q r p e h = rw (half_mask k) (
    omega (
      arith,
      odd_mask k,
      pow-suc 2 k,
      ap (λ (t : ℕ). q * t) (pow-suc 2 k),
      and_with_mask n k (suc a / 2) q (r / 2) (omega arith)
          (omega (arith, ap (λ (t : ℕ). q * t) (pow-suc 2 k))) (omega (arith, pow-suc 2 k)),
    ))

-- A mask of seven ones under any number.
pub low_mask : (v : ℕ) → bit_and v 0x7f ≡ v % 128
low_mask v =
    bit_and-bitwise v 0x7f
    ∙ and_with_mask v 7 v (v / 128) (v % 128) (omega arith) (omega arith) (omega arith)
