-- ===== src/Session/Reconnect.antt =====
-- src/session/reconnect.rs: how long a client waits before it connects again. The wait itself is
-- embassy-time's; the delay that it is asked for is `current_delay_ms`.
pub mod Delays
use zenoh_ros2_nostd.Common.{
  ℕ, ◌+◌, ◌*◌, ◌^◌, min, Bool, ◌||◌, ltb, leb, ◌==◌, if◌then◌else◌, Outcome, ok, panic,
}
use zenoh_ros2_nostd.Error.Top.{Error}
use zenoh_ros2_nostd.Transport.Vbyte.{u64_size}

-- The delays are u64, the rest u32.
pub record ReconnectPolicy : Type 0 where
  pub initial_delay_ms : ℕ
  pub max_delay_ms : ℕ
  pub backoff_factor : ℕ
  pub max_attempts : ℕ
  pub current_delay_ms : ℕ
  pub attempt_count : ℕ

abbrev pub count_size : ℕ
count_size = 2 ^ 32

unfoldable pub policy : ℕ → ℕ → ReconnectPolicy
policy initial_delay_ms max_delay_ms = record {
  initial_delay_ms = initial_delay_ms;
  max_delay_ms = max_delay_ms;
  backoff_factor = 2;
  max_attempts = 0;
  current_delay_ms = initial_delay_ms;
  attempt_count = 0;
}

unfoldable pub default_policy : ReconnectPolicy
unfolding policy
default_policy = policy 1_000 30_000

unfoldable pub reset_policy : ReconnectPolicy → ReconnectPolicy
reset_policy p = record p { current_delay_ms = p.initial_delay_ms; attempt_count = 0 }

unfoldable pub should_retry : ReconnectPolicy → Bool
should_retry p = p.max_attempts == 0 || ltb p.attempt_count p.max_attempts

-- Behind the wait: the count goes up first, then the delay. Both may overflow.
unfoldable pub wait_and_advance : ReconnectPolicy → Outcome Error ReconnectPolicy
wait_and_advance p =
    if leb count_size (p.attempt_count + 1)
    then panic
    else (if leb u64_size (p.current_delay_ms * p.backoff_factor)
        then panic
        else ok (record p {
          attempt_count = p.attempt_count + 1;
          current_delay_ms = min (p.current_delay_ms * p.backoff_factor) p.max_delay_ms;
        }))
