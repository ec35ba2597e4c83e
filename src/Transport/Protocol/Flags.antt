-- ===== src/Transport/Protocol/Flags.antt =====
-- src/transport/protocol.rs: the flags in the high three bits of a header byte. Each message has
-- its own meaning for them: `init_a` is `init_flag::A`, and so on.
use zenoh_ros2_nostd.Common.{ℕ, ◌*◌, ◌^◌}

abbrev pub init_a : ℕ
init_a = 1 * 2 ^ 5

abbrev pub init_s : ℕ
init_s = 1 * 2 ^ 6

abbrev pub init_z : ℕ
init_z = 1 * 2 ^ 7

abbrev pub open_a : ℕ
open_a = 1 * 2 ^ 5

abbrev pub open_t : ℕ
open_t = 1 * 2 ^ 6

abbrev pub frame_r : ℕ
frame_r = 1 * 2 ^ 5

abbrev pub frame_z : ℕ
frame_z = 1 * 2 ^ 7

abbrev pub fragment_r : ℕ
fragment_r = 1 * 2 ^ 5

abbrev pub fragment_m : ℕ
fragment_m = 1 * 2 ^ 6

abbrev pub fragment_z : ℕ
fragment_z = 1 * 2 ^ 7

-- N of `push_flag`, `request_flag`, `response_flag` and the declarations: a suffix follows.
abbrev pub flag_n : ℕ
flag_n = 1 * 2 ^ 5

-- M of the declarations: the scope is a key that the sender declared.
abbrev pub flag_m : ℕ
flag_m = 1 * 2 ^ 6

-- Z of the network and zenoh messages: extensions follow.
abbrev pub flag_z : ℕ
flag_z = 1 * 2 ^ 7

abbrev pub put_t : ℕ
put_t = 1 * 2 ^ 5

abbrev pub put_e : ℕ
put_e = 1 * 2 ^ 6

abbrev pub reply_c : ℕ
reply_c = 1 * 2 ^ 5
