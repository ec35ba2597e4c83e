-- ===== src/Ros2/Text/Decimal.antt =====
-- The digits of a number, and their value.
use zenoh_ros2_nostd.Common.{
  ℕ, zero, suc, ◌+◌, ◌-◌, ◌*◌, ◌/◌, ◌%◌, ◌^◌, ◌≤◌, ◌<◌, ◌≡◌, refl, ap, sym, List, [], ◌∷◌, ◌++◌,
  append_assoc, append-nil, length, length-append, Bool-cases, inl, inr, ==→eq, ◌==◌, if◌then◌else◌,
  arith, ok, err, ltb,
}
use native.Mathlib.Nat.{pow-suc}
use zenoh_ros2_nostd.Ros2.Text.{push_str, digits_loop, push_digits, write_u32}

-- The digits of a number that is not 0, the last of them behind the others.
unfoldable pub digits_of : ℕ → ℕ → List ℕ
digits_of zero v = []
digits_of (suc places) v =
    let rest = digits_of places (v / 10) ++ ((b'0' + v % 10) ∷ []) in if v == 0 then [] else rest

-- The text of a u32.
unfoldable pub decimal : ℕ → List ℕ
decimal v = if v == 0 then b'0' ∷ [] else digits_of 10 v

-- Horner's rule.
unfoldable pub read_decimal : ℕ → List ℕ → ℕ
read_decimal acc [] = acc
read_decimal acc (c ∷ rest) = read_decimal (acc * 10 + (c - b'0')) rest

digits_loop-digits_of :
    (places v : ℕ) (digits : List ℕ)
    → v < 10 ^ places
    → digits_loop places v digits ≡ ok (digits_of places v ++ digits)
unfolding digits_loop digits_of
digits_loop-digits_of zero v digits h = let none_left : v ≡ 0 = omega arith in rw none_left refl
digits_loop-digits_of (suc places) v digits h = elim (Bool-cases (v == 0)) [
  | inl z ↦ rw z refl
  | inr z ↦
      rw
        (
          z,
          digits_loop-digits_of places (v / 10) ((b'0' + v % 10) ∷ digits)
              (omega (arith, pow-suc 10 places)),
        )
        (ap ok (sym (append_assoc (digits_of places (v / 10)) ((b'0' + v % 10) ∷ []) digits)))
]

pub write_u32-push_str :
    (capacity v : ℕ) (s : List ℕ)
    → v < 2 ^ 32
    → write_u32 capacity v s ≡ push_str capacity (decimal v) s
unfolding write_u32 decimal push_digits
write_u32-push_str capacity v s h = elim (Bool-cases (v == 0)) [
  | inl z ↦ rw z refl
  | inr z ↦ rw (z, digits_loop-digits_of 10 v [] (omega arith), append-nil) refl
]

read_decimal-append :
    (acc : ℕ) (xs ys : List ℕ) → read_decimal acc (xs ++ ys) ≡ read_decimal (read_decimal acc xs) ys
unfolding read_decimal
read_decimal-append acc [] ys = refl
read_decimal-append acc (x ∷ xs) ys = read_decimal-append (acc * 10 + (x - b'0')) xs ys

read_decimal-digits_of : (places v : ℕ) → v < 10 ^ places → read_decimal 0 (digits_of places v) ≡ v
unfolding read_decimal digits_of
read_decimal-digits_of zero v h = omega arith
read_decimal-digits_of (suc places) v h = elim (Bool-cases (v == 0)) [
  | inl z ↦ rw z (sym (==→eq v 0 z))
  | inr z ↦
      rw
        (
          z,
          read_decimal-append 0 (digits_of places (v / 10)) ((b'0' + v % 10) ∷ []),
          read_decimal-digits_of places (v / 10) (omega (arith, pow-suc 10 places)),
        )
        (omega arith)
]

length-digits_of : (places v : ℕ) → length (digits_of places v) ≤ places
unfolding digits_of
length-digits_of zero v = omega arith
length-digits_of (suc places) v = elim (Bool-cases (v == 0)) [
  | inl z ↦ rw z (omega arith)
  | inr z ↦ rw z (
      omega (
        arith,
        length-append (digits_of places (v / 10)) ((b'0' + v % 10) ∷ []),
        length-digits_of places (v / 10),
      ))
]

pub length-decimal : (v : ℕ) → length (decimal v) ≤ 10
unfolding decimal
length-decimal v = elim (Bool-cases (v == 0)) [
  | inl z ↦ rw z (omega arith)
  | inr z ↦ rw z (length-digits_of 10 v)
]

pub read_decimal-decimal : (v : ℕ) → v < 2 ^ 32 → read_decimal 0 (decimal v) ≡ v
unfolding decimal
read_decimal-decimal v h = elim (Bool-cases (v == 0)) [
  | inl z ↦ rw z (unfold read_decimal in omega (arith, ==→eq v 0 z))
  | inr z ↦ rw z (read_decimal-digits_of 10 v (omega arith))
]

-- Every u32 is written in decimal, in at most ten digits which read back as that number: the text
-- grows by them where there is room, and where there is none, the call fails. The ten places for
-- digits are enough.
pub write_u32-decimal :
    (capacity v : ℕ) (s : List ℕ)
    → v < 2 ^ 32
    → (digits : List ℕ) × (length digits ≤ 10)
      × (read_decimal 0 digits ≡ v)
      × (write_u32 capacity v s
          ≡ (if ltb capacity (length s + length digits) then err tt else ok (s ++ digits)))
unfolding push_str
write_u32-decimal capacity v s h =
    (decimal v, length-decimal v, read_decimal-decimal v h, write_u32-push_str capacity v s h)
