-- ===== src/Transport/Codec.antt =====
-- src/transport/codec.rs: the messages of the wire protocol, a child for each family.
pub mod Extension
pub mod Header
pub mod Init
pub mod Opening
pub mod Attachment
pub mod Put
pub mod Declare
pub mod Service
