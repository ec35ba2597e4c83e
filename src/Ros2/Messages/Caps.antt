-- ===== src/Ros2/Messages/Caps.antt =====
-- The sizes of the buffers against the encoding.
use zenoh_ros2_nostd.Common.{
  ℕ, ◌+◌, ◌≡◌, refl, ap, ◌∙◌, List, ◌++◌, Bool, true, false, ◌&&◌, length, length-append,
  length-drop, drop, le→ltb, arith, ok,
}
use zenoh_ros2_nostd.Common.Words.{le_bytes, length-le_bytes}
use zenoh_ros2_nostd.Cdr.{
  size, Shape, Value, boolean, text, octets, empty, number, optional, pair, sequence,
}
use zenoh_ros2_nostd.Cdr.Ser.{serialize_with_header, cdr_le_header}
use zenoh_ros2_nostd.Cdr.Image.{padding, image, IsValue}
use zenoh_ros2_nostd.Cdr.Written.{serialize-Emits, emit}
use zenoh_ros2_nostd.Ros2.Messages.{
  float32_msg, int32_msg, twist, send_goal_response, get_result_request, cancel_goal_request,
  float32_cdr_cap, int32_cdr_cap, twist_cdr_cap, send_goal_resp_cdr_cap, get_result_req_cdr_cap,
  cancel_goal_req_cdr_cap,
}

-- The types of messages with a size of their own.
pub data Message : Type 0 where
  float32 int32 velocity goal_answer result_query cancel_query : Message

abbrev pub shape_of : Message → Shape
shape_of float32 = float32_msg
shape_of int32 = int32_msg
shape_of velocity = twist
shape_of goal_answer = send_goal_response
shape_of result_query = get_result_request
shape_of cancel_query = cancel_goal_request

abbrev pub cap_of : Message → ℕ
cap_of float32 = float32_cdr_cap
cap_of int32 = int32_cdr_cap
cap_of velocity = twist_cdr_cap
cap_of goal_answer = send_goal_resp_cdr_cap
cap_of result_query = get_result_req_cdr_cap
cap_of cancel_query = cancel_goal_req_cdr_cap

-- Whether all values of a shape are encoded alike: numbers, flags and what is made of them.
unfoldable is_fixed : Shape → Bool
is_fixed boolean = true
is_fixed text = false
is_fixed octets = false
is_fixed empty = true
is_fixed (number w) = true
is_fixed (optional s) = false
is_fixed (pair s t) = is_fixed s && is_fixed t
is_fixed (sequence s) = false

-- The position behind a value that starts at a position.
unfoldable behind : Shape → ℕ → ℕ
behind boolean pos = pos + 1
behind text pos = pos
behind octets pos = pos
behind empty pos = pos
behind (number w) pos = pos + length (padding (size w) pos) + size w
behind (optional s) pos = pos
behind (pair s t) pos = behind t (behind s pos)
behind (sequence s) pos = pos

and_parts : (a b : Bool) → (a && b) ≡ true → (a ≡ true) × (b ≡ true)
and_parts true true h = (refl, refl)
and_parts true false h = (refl, h)
and_parts false b h = (h, cc)

length-image_fixed :
    (s : Shape) (v : Value s) (pos : ℕ)
    → is_fixed s ≡ true
    → pos + length (image s v pos) ≡ behind s pos
unfolding is_fixed behind image
length-image_fixed boolean v pos h = refl
length-image_fixed empty v pos h = omega arith
length-image_fixed (number w) v pos h =
    omega (
      arith,
      length-append (padding (size w) pos) (le_bytes (size w) v),
      length-le_bytes (size w) v,
    )
length-image_fixed (pair s t) (v, w) pos h =
    let (hs, ht) = and_parts (is_fixed s) (is_fixed t) h in
    let first = length-image_fixed s v pos hs in
    let second = length-image_fixed t w (pos + length (image s v pos)) ht in
    omega (arith, length-append (image s v pos) (image t w (pos + length (image s v pos))), second)
    ∙ ap (behind t) first
length-image_fixed text v pos h = cc
length-image_fixed octets v pos h = cc
length-image_fixed (optional s) v pos h = cc
length-image_fixed (sequence s) v pos h = cc

shape_of-fixed : (k : Message) → is_fixed (shape_of k) ≡ true
unfolding is_fixed
shape_of-fixed float32 = refl
shape_of-fixed int32 = refl
shape_of-fixed velocity = refl
shape_of-fixed goal_answer = refl
shape_of-fixed result_query = refl
shape_of-fixed cancel_query = refl

shape_of-cap_of : (k : Message) → 4 + behind (shape_of k) 0 ≡ cap_of k
unfolding behind
shape_of-cap_of float32 = refl
shape_of-cap_of int32 = refl
shape_of-cap_of velocity = refl
shape_of-cap_of goal_answer = refl
shape_of-cap_of result_query = refl
shape_of-cap_of cancel_query = refl

-- Every message of a type with a size of its own fills the buffer that the source gives it to the
-- last byte, and is serialized into it.
pub serialize_with_header-cap_of :
    (k : Message) (v : Value (shape_of k)) (buf : List ℕ)
    → IsValue (shape_of k) v
    → length buf ≡ cap_of k
    → (w : List ℕ) × (serialize_with_header (shape_of k) v buf ≡ ok (w, cap_of k))
      × (length w ≡ cap_of k)
unfolding serialize_with_header emit
serialize_with_header-cap_of k v buf h e =
    let s = shape_of k in
    let fills : 4 + length (image s v 0) ≡ cap_of k =
      omega (arith, length-image_fixed s v 0 (shape_of-fixed k), shape_of-cap_of k) in
    (
      cdr_le_header ++ image s v 0,
      rw
          (
            le→ltb (length buf) 4 (omega arith),
            serialize-Emits s v h 0 (drop 4 buf),
            le→ltb (length (drop 4 buf)) (length (image s v 0)) (omega (arith, length-drop 4 buf)),
          )
          (ground (arith, fills)),
      omega (arith, fills),
    )
