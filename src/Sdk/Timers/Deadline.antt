-- ===== src/Sdk/Timers/Deadline.antt =====
-- What the loop waits for, and what it finds due.
use zenoh_ros2_nostd.Common.{
  ℕ, suc, ◌+◌, ◌-◌, ◌≤◌, ◌<◌, ◌≡◌, refl, inl, inr, List, [], ◌∷◌, All, Bool, Bool-cases, true,
  false, leb, ltb, ltb→le, ltb→lt, All-mapped, if◌then◌else◌, arith,
}
use zenoh_ros2_nostd.Sdk.Node.{TimerEntry}
use zenoh_ros2_nostd.Sdk.Timers.{fire_timers, next_deadline}

-- The timers that are due, counted.
abbrev pub due : ℕ → List TimerEntry → ℕ
due now [] = 0
due now (t ∷ timers) = let rest = due now timers in if leb t.next_fire now then suc rest else rest

-- `fire_timers` calls `on_timer` once for each timer that is due, and none is due any more then; the
-- periods are not 0, and stay.
pub fire_timers-due :
    (now : ℕ) (timers : List TimerEntry)
    → All (λ (t : TimerEntry). 0 < t.period) timers
    → let (timers', calls) = fire_timers now timers in
      (calls ≡ due now timers)
      × (due now timers' ≡ 0)
      × All (λ (t : TimerEntry). (0 < t.period) × (now < t.next_fire)) timers'
unfolding fire_timers
fire_timers-due now [] h = (refl, refl, tt)
fire_timers-due now (t ∷ timers) (h, hs) = ground (arith, fire_timers-due now timers hs)

-- Whether a wait from `now` ends before the timer is due, if it was not due already.
abbrev pub InTime : ℕ → ℕ → TimerEntry → Type 0
InTime now wait t = now < t.next_fire → now + wait ≤ t.next_fire

shorter_wait :
    (now wait less : ℕ) (timers : List TimerEntry)
    → less ≤ wait
    → All (InTime now wait) timers
    → All (InTime now less) timers
shorter_wait now wait less timers h all =
    All-mapped {P = InTime now wait} {Q = InTime now less} timers
      (λ t in_time later. omega (arith, in_time later)) all

-- A wait of at most the interval which lets no timer pass, and ends for a timer if it is shorter.
abbrev pub Fits : ℕ → ℕ → List TimerEntry → ℕ → Type 0
Fits now interval timers wait =
    (wait ≤ interval)
    × All (InTime now wait) timers
    × (wait < interval → 0 < due (now + wait) timers)

Fits-later :
    (now interval wait m : ℕ) (t : TimerEntry) (timers : List TimerEntry)
    → now < t.next_fire
    → m ≤ interval
    → m ≤ t.next_fire - now
    → (m < interval → m ≡ t.next_fire - now)
    → Fits now m timers wait
    → Fits now interval (t ∷ timers) wait
Fits-later now interval wait m t timers later below near same (low, all, some_due) = (
  omega arith,
  (λ h. omega arith, all),
  λ h. elim (Bool-cases (ltb wait m)) [
    | inl e ↦ ground (arith, some_due (ltb→lt wait m e))
    | inr e ↦
        let reached : t.next_fire ≤ now + wait = omega (arith, ltb→le wait m e, same) in
        ground arith
  ],
)

Fits-overdue :
    (now interval wait m : ℕ) (t : TimerEntry) (timers : List TimerEntry)
    → t.next_fire ≤ now
    → Fits now m timers wait
    → Fits now interval (t ∷ timers) 0
Fits-overdue now interval wait m t timers overdue (low, all, some_due) = (
  omega arith,
  (λ h. omega arith, shorter_wait now wait 0 timers (omega arith) all),
  λ h. ground arith,
)

-- The wait is at most the given interval and lets no timer pass that was not due already; where it is
-- shorter than the interval, some timer is due when it ends. So a timer is never missed for a
-- keepalive, and a short wait is never in vain.
pub next_deadline-InTime :
    (now interval : ℕ) (timers : List TimerEntry)
    → let wait = next_deadline now interval timers in
      (wait ≤ interval)
      × All (InTime now wait) timers
      × (wait < interval → 0 < due (now + wait) timers)
unfolding next_deadline
next_deadline-InTime now interval [] = (omega arith, tt, λ h. omega arith)
next_deadline-InTime now interval (t ∷ timers) =
    let m = if ltb (t.next_fire - now) interval then t.next_fire - now else interval in
    let wait = next_deadline now m timers in
    let fits : Fits now m timers wait = next_deadline-InTime now m timers in
    guarded (ltb now t.next_fire) wait
      (λ e.
        Fits-later now interval wait m t timers (ltb→lt now t.next_fire e) (ground arith)
          (ground arith) (λ h. ground arith) fits)
      (λ e. Fits-overdue now interval wait m t timers (ltb→le now t.next_fire e) fits)
  where
    guarded :
        (b : Bool) (wait : ℕ)
        → (b ≡ true → Fits now interval (t ∷ timers) wait)
        → (b ≡ false → Fits now interval (t ∷ timers) 0)
        → Fits now interval (t ∷ timers) (if b then wait else 0)
    guarded true wait later overdue = later refl
    guarded false wait later overdue = overdue refl
