-- ===== src/Ros2/Liveliness/Parts.antt =====
-- The parts of a key with slashes between them.
use zenoh_ros2_nostd.Common.{
  ℕ, zero, suc, ◌+◌, ◌/◌, ◌%◌, ◌≡◌, refl, ap, ◌∙◌, List, [], ◌∷◌, ◌++◌, All, false, Bool-cases, inl,
  inr, get_or, ◌==◌, if◌then◌else◌, arith,
}
use zenoh_ros2_nostd.Ros2.Mangle.Image.{NoSlash}
use zenoh_ros2_nostd.Ros2.Text.Decimal.{decimal, digits_of}

abbrev pub join : List (List ℕ) → List ℕ
join [] = []
join (p ∷ []) = p
join (p ∷ q ∷ rest) = p ++ (b'/' ∷ join (q ∷ rest))

-- A byte in front of a key, the parts of which are known.
abbrev pub put_before : ℕ → List (List ℕ) → List (List ℕ)
put_before c [] = (c ∷ []) ∷ []
put_before c (p ∷ parts) = (c ∷ p) ∷ parts

-- The parts of a key, in the way another node reads them.
unfoldable pub split : List ℕ → List (List ℕ)
split [] = [] ∷ []
split (c ∷ rest) = let parts = split rest in if c == b'/' then [] ∷ parts else put_before c parts

split-part : (p : List ℕ) → NoSlash p → split p ≡ p ∷ []
unfolding split
split-part [] h = refl
split-part (c ∷ p) (hc, hp) = rw (hc, split-part p hp) refl

split_front : (p rest : List ℕ) → NoSlash p → split (p ++ (b'/' ∷ rest)) ≡ p ∷ split rest
unfolding split
split_front [] rest h = refl
split_front (c ∷ p) rest (hc, hp) = rw (hc, split_front p rest hp) refl

-- A key falls apart at its slashes into the parts that it was made of.
pub split-join :
    (p : List ℕ) (parts : List (List ℕ))
    → All NoSlash (p ∷ parts)
    → split (join (p ∷ parts)) ≡ p ∷ parts
split-join p [] (h, u) = split-part p h
split-join p (q ∷ rest) (h, hs) =
    split_front p (join (q ∷ rest)) h ∙ ap (◌∷◌ p) (split-join q rest hs)

pub append-NoSlash : (xs ys : List ℕ) → NoSlash xs → NoSlash ys → NoSlash (xs ++ ys)
append-NoSlash [] ys hx hy = hy
append-NoSlash (x ∷ xs) ys (h, hs) hy = (h, append-NoSlash xs ys hs hy)

digits_of-NoSlash : (places v : ℕ) → NoSlash (digits_of places v)
unfolding digits_of
digits_of-NoSlash zero v = tt
digits_of-NoSlash (suc places) v = elim (Bool-cases (v == 0)) [
  | inl z ↦ rw z tt
  | inr z ↦ rw z (
      append-NoSlash (digits_of places (v / 10)) ((b'0' + v % 10) ∷ [])
        (digits_of-NoSlash places (v / 10)) (ground arith, tt))
]

pub decimal-NoSlash : (v : ℕ) → NoSlash (decimal v)
unfolding decimal
decimal-NoSlash v = elim (Bool-cases (v == 0)) [
  | inl z ↦ rw z (refl, tt)
  | inr z ↦ rw z (digits_of-NoSlash 10 v)
]

pub get_or-NoSlash :
    (xs : List ℕ) (i d : ℕ) → NoSlash xs → (d == b'/') ≡ false → (get_or xs i d == b'/') ≡ false
get_or-NoSlash [] i d h e = e
get_or-NoSlash (x ∷ xs) zero d (h, hs) e = h
get_or-NoSlash (x ∷ xs) (suc i) d (h, hs) e = get_or-NoSlash xs i d hs e
