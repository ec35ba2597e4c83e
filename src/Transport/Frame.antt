-- ===== src/Transport/Frame.antt =====
-- src/transport/frame.rs: a u16 length, little endian, before each message.
pub mod RoundTrip
use zenoh_ros2_nostd.Common.{
  ℕ, ◌%◌, ◌^◌, List, [], ◌∷◌, Bool, true, false, Option, none, some, length, ltb, ◌==◌,
  if◌then◌else◌, Outcome, ok, err, fail_if,
}
use zenoh_ros2_nostd.Common.Words.{le_bytes, from_le_bytes}
use zenoh_ros2_nostd.Error.{TransportError, frame_too_large, io, Wire}
use zenoh_ros2_nostd.Transport.Link.{Link, Io, ◌>>=◌, ◌>>◌, pure}

-- `.map_err(|_| TransportError::Io)?`
abbrev pub io_result : Bool → Wire (Unit {0})
io_result true = ok tt
io_result false = err io

abbrev pub io_bytes : Option (List ℕ) → Wire (List ℕ)
io_bytes (some bytes) = ok bytes
io_bytes none = err io

module _ (link : Link) where
  open link use {State, write_all, flush, read_exact}

  abbrev pub try_write : List ℕ → Io State TransportError (Unit {0})
  try_write bytes l = (io_result (write_all bytes l).0, (write_all bytes l).1)

  abbrev pub try_flush : Io State TransportError (Unit {0})
  try_flush l = (io_result (flush l).0, (flush l).1)

  abbrev pub try_read : ℕ → Io State TransportError (List ℕ)
  try_read n l = (io_bytes (read_exact n l).0, (read_exact n l).1)

  unfoldable pub write_frame : List ℕ → Io State TransportError (Unit {0})
  write_frame payload = do
    pure (fail_if (ltb 0xffff (length payload)) frame_too_large)
    try_write (le_bytes 2 (length payload))
    try_write payload
    try_flush

  -- The result is `buf[..n]` for the `n` that is returned, in a buffer of `size` bytes.
  unfoldable pub read_body : ℕ → ℕ → Io State TransportError (List ℕ)
  read_body size n =
      if n == 0
      then pure (ok [])
      else (if ltb size n then pure (err frame_too_large) else try_read n)

  unfoldable pub read_frame : ℕ → Io State TransportError (List ℕ)
  unfolding read_body
  read_frame size = do len_bytes ← try_read 2; read_body size (from_le_bytes len_bytes)
