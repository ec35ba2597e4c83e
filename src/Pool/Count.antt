-- ===== src/Pool/Count.antt =====
-- The pool as a count of buffers that are there, all of them empty.
use zenoh_ros2_nostd.Common.{
  ℕ, zero, suc, ◌+◌, ◌≤◌, ◌<◌, ◌≡◌, refl, ap, List, [], ◌∷◌, Option, none, some, length, All, arith,
  ok, err,
}
use zenoh_ros2_nostd.Pool.{BufferPool, full_pool, acquire, put_back, release, available}

abbrev pub IsEmpty : Option (List ℕ) → Type 0
IsEmpty none = Unit {0}
IsEmpty (some buf) = buf ≡ []

abbrev pub IsValid : BufferPool → Type 0
IsValid pool = All IsEmpty pool

pub full_pool-IsValid : (count : ℕ) → IsValid (full_pool count)
unfolding full_pool
full_pool-IsValid zero = tt
full_pool-IsValid (suc count) = (refl, full_pool-IsValid count)

pub available-full_pool : (count : ℕ) → available (full_pool count) ≡ count
unfolding available full_pool
available-full_pool zero = refl
available-full_pool (suc count) = ap suc (available-full_pool count)

-- `acquire` hands out an empty buffer exactly as long as there is one, which is one fewer after;
-- the places stay, and the pool stays valid.
pub acquire-available :
    (pool : BufferPool)
    → IsValid pool
    → let (answer, after) = acquire pool in
      IsValid after
      × (length after ≡ length pool)
      × ((available pool ≡ 0) → (answer ≡ none) × (after ≡ pool))
      × ((1 ≤ available pool) → (answer ≡ some []) × (available after + 1 ≡ available pool))
unfolding acquire available
acquire-available [] v = (tt, refl, (λ h. (refl, refl)), λ h. absurd (omega arith))
acquire-available (some buf ∷ pool) (e, v) =
    ((tt, v), refl, (λ h. absurd (omega arith)), λ h. (ap some e, omega arith))
acquire-available (none ∷ pool) (t, v) =
    let (kept, size, at_none, at_some) = acquire-available pool v in
    ((tt, kept), ap suc size, (λ h. ((at_none h).0, ap (λ p. none ∷ p) (at_none h).1)), at_some)

-- `release` puts a buffer back empty exactly as long as a place is free, and there is one more
-- after; it gives the buffer back, empty, where no place is free. The places stay, and the pool
-- stays valid.
pub release-available :
    (buf : List ℕ) (pool : BufferPool)
    → IsValid pool
    → let (answer, after) = release buf pool in
      IsValid after
      × (length after ≡ length pool)
      × ((available pool ≡ length pool) → (answer ≡ err []) × (after ≡ pool))
      × ((available pool < length pool) → (answer ≡ ok tt) × (available after ≡ available pool + 1))
unfolding release put_back available
release-available buf [] v = (tt, refl, (λ h. (refl, refl)), λ h. absurd (omega arith))
release-available buf (none ∷ pool) (t, v) =
    ((refl, v), refl, (λ h. absurd (omega (arith, available_le pool))), λ h. (refl, omega arith))
  where
    available_le : (p : BufferPool) → available p ≤ length p
    available_le [] = omega arith
    available_le (some b ∷ p) = omega (arith, available_le p)
    available_le (none ∷ p) = omega (arith, available_le p)
release-available buf (some other ∷ pool) (e, v) =
    let (kept, size, at_none, at_some) = release-available buf pool v in
    (
      (e, kept),
      ap suc size,
      (λ h. ((at_none (omega arith)).0, ap (λ p. some other ∷ p) (at_none (omega arith)).1)),
      (λ h. ((at_some (omega arith)).0, omega (arith, (at_some (omega arith)).1))),
    )
