-- ===== src/Ros2/Qos.antt =====
-- src/ros2/qos.rs: the policies of quality of service, their numbers, and which profiles go together.
pub mod Compatible
pub mod Announced
use zenoh_ros2_nostd.Common.{
  ℕ, ◌+◌, ◌/◌, ◌%◌, List, [], ◌∷◌, Bool, true, false, ◌&&◌, not, leb, ◌==◌, if◌then◌else◌, ok,
  ◌>>=◌,
}
use zenoh_ros2_nostd.Ros2.Text.{Text, push_char, write_u32}

pub data Reliability : Type 0 where
  best_effort reliable : Reliability

pub data Durability : Type 0 where
  volatile transient_local : Durability

-- The depth is a u32.
pub data History : Type 0 where
  keep_last : ℕ → History
  keep_all : History

unfoldable pub reliability_value : Reliability → ℕ
reliability_value best_effort = 2
reliability_value reliable = 1

unfoldable pub durability_value : Durability → ℕ
durability_value volatile = 2
durability_value transient_local = 1

pub record Qos : Type 0 where
  pub reliability : Reliability
  pub durability : Durability
  pub history : History

abbrev pub is_best_effort : Reliability → Bool
is_best_effort best_effort = true
is_best_effort reliable = false

abbrev pub is_volatile : Durability → Bool
is_volatile volatile = true
is_volatile transient_local = false

-- Two early returns, one for each policy.
unfoldable pub is_compatible : Qos → Qos → Bool
is_compatible pub_qos sub_qos =
    if is_best_effort pub_qos.reliability && not (is_best_effort sub_qos.reliability)
    then false
    else (if is_volatile pub_qos.durability && not (is_volatile sub_qos.durability)
        then false
        else true)

unfoldable pub history_value : History → ℕ
history_value (keep_last d) = 1
history_value keep_all = 2

unfoldable pub depth : History → ℕ
depth (keep_last d) = d
depth keep_all = 0

abbrev pub default_qos : Qos
default_qos = record { reliability = reliable; durability = volatile; history = keep_last 10 }

abbrev pub max_qos_keyexpr_len : ℕ
max_qos_keyexpr_len = 128

abbrev pub rmw_default_reliability : ℕ
rmw_default_reliability = 1

abbrev pub rmw_default_durability : ℕ
rmw_default_durability = 2

abbrev pub rmw_default_history : ℕ
rmw_default_history = 1

abbrev pub rmw_default_depth : ℕ
rmw_default_depth = 42

unfoldable pub push_u8 : ℕ → ℕ → List ℕ → Text
push_u8 capacity val s = do
  s ← (if leb 100 val then push_char capacity (b'0' + val / 100) s else ok s)
  s ← (if leb 10 val then push_char capacity (b'0' + (val / 10) % 10) s else ok s)
  push_char capacity (b'0' + val % 10) s

-- `if value != default { push(value) }`
abbrev pub push_unless : Bool → (List ℕ → Text) → List ℕ → Text
push_unless true push s = ok s
push_unless false push s = push s

unfoldable pub to_rmw_qos_keyexpr : Qos → Text
unfolding reliability_value durability_value history_value depth push_u8
to_rmw_qos_keyexpr q =
    let cap = max_qos_keyexpr_len in
    let rel = reliability_value q.reliability in
    let dur = durability_value q.durability in
    let hist = history_value q.history in
    do
      s ← push_unless (rel == rmw_default_reliability) (push_u8 cap rel) []
      s ← push_char cap b':' s
      s ← push_unless (dur == rmw_default_durability) (push_u8 cap dur) s
      s ← push_char cap b':' s
      s ← push_unless (hist == rmw_default_history) (push_u8 cap hist) s
      s ← push_char cap b',' s
      s ← push_unless (depth q.history == rmw_default_depth) (write_u32 cap (depth q.history)) s
      s ← push_char cap b':' s
      s ← push_char cap b',' s
      s ← push_char cap b':' s
      s ← push_char cap b',' s
      s ← push_char cap b':' s
      s ← push_char cap b',' s
      s ← push_char cap b',' s
      ok s
