-- ===== src/Tests/MemoryLink.antt =====
-- A link in memory: what was sent, and what is still to be read. The promises of
-- `Transport.Link` for it.
use zenoh_ros2_nostd.Common.{
  ℕ, ◌≤◌, ◌≡◌, refl, ap, List, ◌++◌, true, Option, none, some, length, take, drop, ltb, le→ltb,
  if◌then◌else◌, arith,
}
use zenoh_ros2_nostd.Transport.Link.{Link, Promises}
use zenoh_ros2_nostd.Transport.Frame.RoundTrip.{IsWritable}

abbrev pub Memory : Type 0
Memory = List ℕ × List ℕ

abbrev pub read_memory : ℕ → Memory → Option (List ℕ) × Memory
read_memory n (sent, input) =
    if ltb (length input) n
    then (none, (sent, input))
    else (some (take n input), (sent, drop n input))

abbrev pub memory_link : Link
memory_link = record {
  State = Memory;
  write_all = λ bytes (sent, input). (true, (sent ++ bytes, input));
  flush = λ l. (true, l);
  read_exact = read_memory;
}

pub read_memory-enough :
    (n : ℕ) (l : Memory) → n ≤ length l.1 → read_memory n l ≡ (some (take n l.1), (l.0, drop n l.1))
read_memory-enough n (sent, input) h = rw (le→ltb (length input) n h)

pub read_memory-sent : (n : ℕ) (l : Memory) → (read_memory n l).1.0 ≡ l.0
read_memory-sent n (sent, input) = ground arith

abbrev pub memory-Promises : Promises memory_link
memory-Promises = record {
  sent = λ l. l.0;
  input = λ l. l.1;
  write_all-sent = λ bytes l e. refl;
  write_all-input = λ bytes l. refl;
  flush-sent = λ l. refl;
  flush-input = λ l. refl;
  read_exact-some = λ n l h. ap (λ t. t.0) (read_memory-enough n l h);
  read_exact-input = λ n l h. ap (λ t. t.1.1) (read_memory-enough n l h);
  read_exact-sent = read_memory-sent;
}

pub memory-IsWritable : IsWritable memory_link
memory-IsWritable = record { writes = λ bytes l. refl; flushes = λ l. refl }
