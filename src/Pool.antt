-- ===== src/Pool.antt =====
-- src/buf/pool.rs: a pool of buffers, each in its place or taken out.
pub mod Count
use zenoh_ros2_nostd.Common.{ℕ, suc, List, [], ◌∷◌, Option, none, some, replicate, Outcome, ok, err}

abbrev pub BufferPool : Type 0
BufferPool = List (Option (List ℕ))

-- COUNT empty buffers.
unfoldable pub full_pool : ℕ → BufferPool
full_pool count = replicate count (some [])

-- `slot.take()` of the first place with a buffer.
unfoldable pub acquire : BufferPool → Option (List ℕ) × BufferPool
acquire [] = (none, [])
acquire (some buf ∷ pool) = (some buf, none ∷ pool)
acquire (none ∷ pool) = let (answer, after) = acquire pool in (answer, none ∷ after)

-- The first place without a buffer takes this one, which is cleared already.
unfoldable pub put_back : List ℕ → BufferPool → Outcome (List ℕ) (Unit {0}) × BufferPool
put_back buf [] = (err buf, [])
put_back buf (none ∷ pool) = (ok tt, some buf ∷ pool)
put_back buf (some other ∷ pool) =
    let (answer, after) = put_back buf pool in (answer, some other ∷ after)

unfoldable pub release : List ℕ → BufferPool → Outcome (List ℕ) (Unit {0}) × BufferPool
unfolding put_back
release buf pool = put_back [] pool

unfoldable pub available : BufferPool → ℕ
available [] = 0
available (some buf ∷ pool) = suc (available pool)
available (none ∷ pool) = available pool
