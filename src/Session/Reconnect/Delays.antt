-- ===== src/Session/Reconnect/Delays.antt =====
-- The delays of a policy, one failed attempt after the other.
use zenoh_ros2_nostd.Common.{
  ℕ, zero, suc, ◌+◌, ◌*◌, ◌^◌, ◌≤◌, ◌<◌, ◌≡◌, refl, min, true, lt→leb, arith, Outcome, ok, ◌>>=◌,
}
use native.Mathlib.Nat.{pow-suc}
use zenoh_ros2_nostd.Error.Top.{Error}
use zenoh_ros2_nostd.Transport.Vbyte.{u64_size}
use zenoh_ros2_nostd.Session.Reconnect.{
  ReconnectPolicy, count_size, policy, reset_policy, should_retry, wait_and_advance,
}

-- The policy after some failed attempts.
unfoldable pub advanced : ℕ → ReconnectPolicy → Outcome Error ReconnectPolicy
advanced zero p = ok p
advanced (suc k) p = advanced k p >>= wait_and_advance

-- A policy as `new` makes it, after k attempts with the given delay.
abbrev pub waiting : ℕ → ℕ → ℕ → ℕ → ReconnectPolicy
waiting first last k delay = record {
  initial_delay_ms = first;
  max_delay_ms = last;
  backoff_factor = 2;
  max_attempts = 0;
  current_delay_ms = delay;
  attempt_count = k;
}

advanced-waiting :
    (first last k : ℕ)
    → first ≤ last
    → last * 2 < u64_size
    → k < count_size
    → advanced k (policy first last) ≡ ok (waiting first last k (min (first * 2 ^ k) last))
unfolding advanced policy wait_and_advance
advanced-waiting first last zero h hl hk = ground arith
advanced-waiting first last (suc k) h hl hk =
    let delay = min (first * 2 ^ k) last in
    rw
      (
        advanced-waiting first last k h hl (omega arith),
        lt→leb count_size (k + 1) (omega arith),
        lt→leb u64_size (delay * 2) (omega arith),
        pow-suc 2 k,
      )
      (ground arith)

-- After any number k of failed attempts that a u32 counts, a policy from `new` asks for a wait of
-- first * 2 ^ k milliseconds, and of the maximum from where that passes it; it goes on trying, and
-- a reset gives the new policy back. The first delay is at most the maximum, and twice the maximum
-- fits a u64.
pub wait_and_advance-delays :
    (first last k : ℕ)
    → first ≤ last
    → last * 2 < u64_size
    → k < count_size
    → (p : ReconnectPolicy) × (advanced k (policy first last) ≡ ok p)
      × (p.current_delay_ms ≡ min (first * 2 ^ k) last)
      × (p.attempt_count ≡ k)
      × (should_retry p ≡ true)
      × (reset_policy p ≡ policy first last)
unfolding should_retry reset_policy policy
wait_and_advance-delays first last k h hl hk = (
  waiting first last k (min (first * 2 ^ k) last),
  advanced-waiting first last k h hl hk,
  refl,
  refl,
  refl,
  refl,
)
