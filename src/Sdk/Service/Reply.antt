-- ===== src/Sdk/Service/Reply.antt =====
-- What a call makes of the answers that arrive.
use zenoh_ros2_nostd.Transport.Link.{Link}
use zenoh_ros2_nostd.Ros2.Channel.{Channel}
