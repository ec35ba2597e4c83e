-- ===== src/Transport.antt =====
-- src/transport: the Zenoh wire protocol of a client.
pub mod Writer
pub mod Vbyte
pub mod Protocol
pub mod Reader
pub mod Slice
pub mod Codec
pub mod Fragment
pub mod Frame
pub mod Link
pub mod Handshake
