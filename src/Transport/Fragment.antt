-- ===== src/Transport/Fragment.antt =====
-- src/transport/fragment.rs: fragments of a message are collected in a buffer of `cap` bytes.
pub mod Refine
use zenoh_ros2_nostd.Common.{
  ℕ, ◌+◌, List, [], ◌++◌, Bool, true, false, Option, none, some, length, take, drop, replicate, ltb,
  if◌then◌else◌, ok, err,
}
use zenoh_ros2_nostd.Error.{frame_too_large, Wire}

-- `buf` has `cap` entries.
pub record FragmentAssembler : Type 0 where
  pub buf : List ℕ
  pub len : ℕ
  pub active : Bool

unfoldable pub reset : FragmentAssembler → FragmentAssembler
reset a = record a { len = 0; active = false }

-- `buf[from..from + payload.len()].copy_from_slice(payload)`
unfoldable pub copy_into : List ℕ → ℕ → List ℕ → List ℕ
copy_into buf from payload = take from buf ++ (payload ++ drop (from + length payload) buf)

-- `self.len = 0; self.active = true` at the start of a message.
unfoldable pub begin : FragmentAssembler → FragmentAssembler
begin a = if a.active then a else record a { len = 0; active = true }

module _ (cap : ℕ) where
  unfoldable pub new : FragmentAssembler
  new = record { buf = replicate cap 0; len = 0; active = false }

  unfoldable pub feed :
      FragmentAssembler → Bool → List ℕ → Wire (Option (List ℕ)) × FragmentAssembler
  unfolding begin copy_into reset
  feed a more payload =
      let b = begin a in
      let new_len = b.len + length payload in
      let buf = copy_into b.buf b.len payload in
      if ltb cap new_len
      then (err frame_too_large, reset b)
      else (if more
          then (ok none, record b { buf = buf; len = new_len })
          else (ok (some (take new_len buf)), record { buf = buf; len = new_len; active = false }))
