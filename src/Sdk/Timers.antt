-- ===== src/Sdk/Timers.antt =====
-- src/sdk/timer.rs, and the timers in src/sdk/node.rs. `now` is what `Instant::now()` answers.
pub mod Deadline
use zenoh_ros2_nostd.Common.{ℕ, ◌+◌, ◌-◌, ◌%◌, List, [], ◌∷◌, length, ltb, leb, if◌then◌else◌}
use zenoh_ros2_nostd.Sdk.Statics.{push_within}
use zenoh_ros2_nostd.Sdk.Node.{Node, TimerEntry, max_timers}

-- `id` is a u8.
pub record TimerHandle : Type 0 where
  pub period : ℕ
  pub id : ℕ

unfoldable pub register_timer : {L : Type 0} → ℕ → ℕ → Node L → TimerHandle × Node L
register_timer now period n =
    let entry : TimerEntry = record { period = period; next_fire = now + period } in
    (
      record { period = period; id = length n.timers % 256 },
      record n { timers = push_within max_timers n.timers entry },
    )

-- One round of the loop of `fire_timers` for one timer.
abbrev pub fire : ℕ → TimerEntry → TimerEntry
fire now t = if leb t.next_fire now then record t { next_fire = now + t.period } else t

-- The timers after `fire_timers`, and how often it calls `on_timer`.
unfoldable pub fire_timers : ℕ → List TimerEntry → List TimerEntry × ℕ
fire_timers now [] = ([], 0)
fire_timers now (t ∷ timers) =
    let (rest, calls) = fire_timers now timers in
    (fire now t ∷ rest, (if leb t.next_fire now then calls + 1 else calls))

-- The loop of `next_deadline`, from the minimum so far.
unfoldable pub next_deadline : ℕ → ℕ → List TimerEntry → ℕ
next_deadline now minimum [] = minimum
next_deadline now minimum (t ∷ timers) =
    let remaining = t.next_fire - now in
    let rest = next_deadline now (if ltb remaining minimum then remaining else minimum) timers in
    if ltb now t.next_fire then rest else 0
