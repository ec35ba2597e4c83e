-- ===== src/Ros2/Messages.antt =====
-- src/ros2/msg.rs: the messages of a fixed size, as shapes of the serde data model, and the sizes
-- that the source gives their buffers. A signed number and a float stand as their bit patterns.
pub mod Caps
use zenoh_ros2_nostd.Common.{ℕ, zero, suc}
use zenoh_ros2_nostd.Cdr.{Shape, boolean, number, empty, pair, one, four, eight}

-- `[T; n]`: its elements, one after the other, without a length.
abbrev pub array : ℕ → Shape → Shape
array zero s = empty
array (suc n) s = pair s (array n s)

abbrev pub float32_msg : Shape
float32_msg = number four

abbrev pub int32_msg : Shape
int32_msg = number four

abbrev pub vector3 : Shape
vector3 = pair (number eight) (pair (number eight) (number eight))

abbrev pub twist : Shape
twist = pair vector3 vector3

abbrev pub stamp : Shape
stamp = pair (number four) (number four)

abbrev pub goal_id : Shape
goal_id = array 16 (number one)

abbrev pub goal_info : Shape
goal_info = pair goal_id stamp

abbrev pub send_goal_response : Shape
send_goal_response = pair boolean stamp

abbrev pub get_result_request : Shape
get_result_request = goal_id

abbrev pub cancel_goal_request : Shape
cancel_goal_request = goal_info

abbrev pub float32_cdr_cap : ℕ
float32_cdr_cap = 8

abbrev pub int32_cdr_cap : ℕ
int32_cdr_cap = 8

abbrev pub twist_cdr_cap : ℕ
twist_cdr_cap = 52

abbrev pub send_goal_resp_cdr_cap : ℕ
send_goal_resp_cdr_cap = 16

abbrev pub get_result_req_cdr_cap : ℕ
get_result_req_cdr_cap = 20

abbrev pub cancel_goal_req_cdr_cap : ℕ
cancel_goal_req_cdr_cap = 28
