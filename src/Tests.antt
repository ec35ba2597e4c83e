-- ===== src/Tests.antt =====
-- Runs on concrete data, and the theorems at concrete inputs.
mod MemoryLink
mod Wire
mod Messages
mod Sessions
mod Cdr
mod Names
mod MemoryChannel
mod Queues
mod Nodes
