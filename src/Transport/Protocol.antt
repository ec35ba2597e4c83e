-- ===== src/Transport/Protocol.antt =====
-- src/transport/protocol.rs: node identifiers and the handshake messages.
pub mod Ids
pub mod Flags
pub mod Bytes
use zenoh_ros2_nostd.Common.{
  ℕ, zero, suc, ◌+◌, ◌-◌, ◌%◌, ◌≤◌, ◌≡◌, List, [], ◌∷◌, ◌++◌, Option, bit_xor, take, set, get_or,
  length, replicate, ltb, if◌then◌else◌,
}

abbrev pub proto_version : ℕ
proto_version = 9

pub data WhatAmI : Type 0 where
  router peer client : WhatAmI

-- `bytes` has 16 entries.
pub record ZenohId : Type 0 where
  pub bytes : List ℕ
  pub len : ℕ

unfoldable pub from_bytes : List ℕ → ZenohId
from_bytes bytes =
    let n = if ltb 16 (length bytes) then 16 else length bytes in
    record { bytes = take n bytes ++ replicate (16 - n) 0; len = n }

-- `&self.bytes[..self.len as usize]`, for a length that does not pass 16.
unfoldable pub as_bytes : ZenohId → List ℕ
as_bytes z = take z.len z.bytes

-- `for (i, b) in name.bytes().enumerate() { bytes[i % 8] ^= b }`
unfoldable pub fold_name : List ℕ → ℕ → List ℕ → List ℕ
fold_name bytes i [] = bytes
fold_name bytes i (b ∷ name) =
    fold_name (set bytes (i % 8) (bit_xor (get_or bytes (i % 8) 0) b)) (i + 1) name

unfoldable pub from_name : List ℕ → ZenohId
unfolding from_bytes fold_name
from_name name = from_bytes (fold_name (replicate 8 0) 0 name)

pub record InitSyn : Type 0 where
  pub version : ℕ
  pub whatami : WhatAmI
  pub zid : ZenohId
  pub batch_size : Option ℕ

-- `cookie` is a `heapless::Vec<u8, 256>`.
pub record InitAck : Type 0 where
  pub version : ℕ
  pub whatami : WhatAmI
  pub zid : ZenohId
  pub cookie : List ℕ
  pub batch_size : Option ℕ

pub record OpenSyn : Type 0 where
  pub lease_ms : ℕ
  pub initial_sn : ℕ
  pub cookie : List ℕ

pub record OpenAck : Type 0 where
  pub lease_ms : ℕ
  pub initial_sn : ℕ
