-- ===== src/Transport/Protocol/Ids.antt =====
-- src/transport/protocol.rs: the identifiers in the low five bits of a header byte.
use zenoh_ros2_nostd.Common.{ℕ}

abbrev pub transport_init : ℕ
transport_init = 0x01

abbrev pub transport_open : ℕ
transport_open = 0x02

abbrev pub transport_close : ℕ
transport_close = 0x03

abbrev pub transport_keep_alive : ℕ
transport_keep_alive = 0x04

abbrev pub transport_frame : ℕ
transport_frame = 0x05

abbrev pub transport_fragment : ℕ
transport_fragment = 0x06

abbrev pub network_push : ℕ
network_push = 0x1d

abbrev pub network_request : ℕ
network_request = 0x1c

abbrev pub network_response : ℕ
network_response = 0x1b

abbrev pub network_response_final : ℕ
network_response_final = 0x1a

abbrev pub network_declare : ℕ
network_declare = 0x1e

abbrev pub zenoh_put : ℕ
zenoh_put = 0x01

abbrev pub zenoh_query : ℕ
zenoh_query = 0x03

abbrev pub zenoh_reply : ℕ
zenoh_reply = 0x04

abbrev pub query_all_complete : ℕ
query_all_complete = 2

abbrev pub declare_keyexpr : ℕ
declare_keyexpr = 0x00

abbrev pub declare_subscriber : ℕ
declare_subscriber = 0x02

abbrev pub declare_token : ℕ
declare_token = 0x06

abbrev pub close_generic : ℕ
close_generic = 0x00
