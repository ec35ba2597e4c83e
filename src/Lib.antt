-- ===== src/Lib.antt =====
-- A ROS 2 client for zenoh without an allocator: what its wire format, its handshake and its
-- sessions do, over any link.
--
-- The parts and how they interact. A session (src/session/session.rs) owns a link. To send, it
-- encodes the header of a Frame and one message into a buffer (src/transport/codec.rs) and writes
-- the bytes as one frame with a length in front (src/transport/frame.rs). To receive, it reads one
-- frame, looks at the kind of the message, and decodes a Push with a Put. Before that it runs the
-- handshake (src/transport/handshake.rs) over the same frames. A node (src/sdk/node.rs) owns a link
-- in the same way and refers to static publishers and subscriptions: a task sends into the queue of
-- a publisher (src/ros2/publisher.rs), the loop of the node drains it to the link and to its own
-- subscriptions, and what arrives goes into the queue of a subscription (src/ros2/subscription.rs).
--
-- Which file models which part:
--   Common: lists, tests, bits and words over native numbers, and results that may panic
--   Error, Error/Top: src/error.rs and src/cdr/error.rs
--   Transport/Writer, Transport/Reader: how every function of codec.rs moves through a buffer
--   Transport/Vbyte, Transport/Slice: encode_vbyte to encode_string of src/transport/codec.rs
--   Transport/Protocol: src/transport/protocol.rs
--   Transport/Codec: the messages of src/transport/codec.rs, a file for each family
--   Transport/Fragment: src/transport/fragment.rs
--   Transport/Link, Transport/Frame: src/transport/link.rs and src/transport/frame.rs
--   Transport/Handshake: src/transport/handshake.rs
--   Session: src/session/session.rs, with one state for what is behind the mutexes
--   Cdr: src/cdr/ser.rs, src/cdr/de.rs and the four entry points of src/cdr/mod.rs
--   Session/Reconnect: src/session/reconnect.rs
--   Pool: src/buf/pool.rs
--   Ros2/Text, Ros2/Keyexpr: src/ros2/keyexpr.rs
--   Ros2/Qos: src/ros2/qos.rs
--   Ros2/Mangle: push_mangled and push_mangled_absolute of src/ros2/liveliness.rs
--   Ros2/Locality: src/ros2/locality.rs
--   Ros2/Channel: the channel of embassy, a parameter
--   Ros2/Subscription: src/ros2/subscription.rs and src/session/subscriber.rs
--   Ros2/Publisher: src/ros2/publisher.rs
--   Ros2/Messages: the messages of a fixed size in src/ros2/msg.rs
--   Ros2/Liveliness: build_liveliness_token of src/ros2/liveliness.rs
--   Sdk/Node, Sdk/Register: the state of src/sdk/node.rs, its declarations and registrations
--   Sdk/Topics, Sdk/Routing: dispatch_local, dispatch_frame and dispatch_frame_with_callbacks
--   Sdk/Timers: register_timer, fire_timers and next_deadline, and src/sdk/timer.rs
--   Sdk/Drain: drain_publishers
--   Sdk/Spin: spin and spin_with_callbacks
--   Sdk/Service: call_service
--   Sdk/Statics, Sdk/World: the static publishers and subscriptions, and a node with them
--
-- Numbers. A u8, u16, u32 or u64 is a natural number with its wrap-around written out. usize has 32
-- bits, as on the microcontrollers this crate is for. An operation that overflows without
-- wrapping is a panic, as the crate's dev profile has it.
--
-- Buffers. An encoder takes the rest of the buffer and returns what it wrote and what is left; `&mut
-- buf[pos..]` is the rest, and a sequence of writes is `⨾`. A decoder's step takes the position
-- and the bytes from there on. Strings are their bytes, and from_utf8 is the test of
-- Transport/Slice/Utf8.
--
-- Bounds. The loops of the variable-length numbers have fuel for ten groups of seven bits, and every
-- u64 has at most ten. The loop over extensions is recursion on the length of what is left, the
-- elements of a sequence are counted by its length field, and the digits of a number have the ten
-- places of the source, as many as a u32 needs. The loops that empty a queue have fuel, and one
-- round more than there are messages is enough, since no task sends while they run. A run of a node
-- is the list of what its timer decides, one entry for each round, and a call of a service has one
-- round for each frame. All other loops are recursion on a list.
--
-- The link is not in the repository: it is any type with the operations of embedded-io-async, here a
-- record of functions (Transport/Link), and what their documentation promises is a record of
-- hypotheses, which the link in memory of Tests/MemoryLink keeps. So is the channel of embassy
-- (Ros2/Channel), with the channel in memory of Tests/MemoryChannel. Publishers and subscriptions
-- are static items, so that two entries may name the same one: a store under addresses (Sdk/Statics).
--
-- Not modelled: several tasks in the same session or node at once (a call is one step here), the
-- clock (its answers are arguments), logging, the host adapters, the derive macro, the older node of
-- src/ros2/node.rs, the wrappers of actions and spin_and_backoff of src/sdk/node.rs, and CDR
-- serialization of values where no file above names it.
pub mod Common
pub mod Error
pub mod Transport
pub mod Session
pub mod Cdr
pub mod Pool
pub mod Ros2
pub mod Sdk
mod Tests
