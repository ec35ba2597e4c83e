-- ===== src/Transport/Codec/Init/Image.antt =====
-- InitSyn as it goes out, and InitAck as a router sends it, in one piece.
use zenoh_ros2_nostd.Common.{
  ℕ, ◌+◌, ◌-◌, ◌*◌, ◌/◌, ◌%◌, ◌^◌, ◌≤◌, ◌<◌, ◌≡◌, refl, sym, bit_and, bit_or, List, [], ◌∷◌, ◌++◌,
  Bool, true, false, ◌&&◌, Option, none, some, length, ◌==◌, ==→eq, ne→==, arith, ok,
}
use zenoh_ros2_nostd.Common.Bits.{holds_below, from_table}
use zenoh_ros2_nostd.Common.Words.{le_bytes}
use zenoh_ros2_nostd.Transport.Writer.{
  write_byte-slice, write_slice, write_slice-append, write_slice-nil,
}
use zenoh_ros2_nostd.Transport.Slice.RoundTrip.{slice_image}
use zenoh_ros2_nostd.Transport.Protocol.{
  WhatAmI, router, peer, client, ZenohId, as_bytes, from_bytes, InitSyn, InitAck,
}
use zenoh_ros2_nostd.Transport.Reader.{usize_size}
use zenoh_ros2_nostd.Transport.Codec.Extension.Chain.{Extension, extended, chain_image}
use zenoh_ros2_nostd.Transport.Codec.Init.{
  whatami_to_2bit, whatami_from_2bit, zid_flags, write_batch, init_header, encode_init_syn,
}

-- The flags byte of an identifier of n + 1 bytes.
abbrev flags_of : ℕ → ℕ → ℕ
flags_of n role = bit_or (n * 2 ^ 4 % 256) role

abbrev flags_law : ℕ → ℕ → Bool
flags_law role n = (flags_of n role / 2 ^ 4 == n) && (bit_and (flags_of n role) 3 == role)

router_table : holds_below 16 (flags_law 0) ≡ true
unfolding holds_below
router_table = refl

peer_table : holds_below 16 (flags_law 1) ≡ true
unfolding holds_below
peer_table = refl

client_table : holds_below 16 (flags_law 2) ≡ true
unfolding holds_below
client_table = refl

flags_read :
    (role n : ℕ)
    → holds_below 16 (flags_law role) ≡ true
    → n < 16
    → (flags_of n role / 2 ^ 4 ≡ n) × (bit_and (flags_of n role) 3 ≡ role)
flags_read role n table h = ground (arith, from_table 16 (flags_law role) n table h)

-- The flags byte holds both the length of the identifier, 1 to 16, and the role: each is read
-- back from it the way `decode_init_ack` reads it.
pub zid_flags_fields :
    (zid : ZenohId) (w : WhatAmI)
    → 1 ≤ length (as_bytes zid)
    → length (as_bytes zid) ≤ 16
    → (zid_flags zid w / 2 ^ 4 + 1 ≡ length (as_bytes zid))
      × (whatami_from_2bit (zid_flags zid w) ≡ ok w)
unfolding zid_flags whatami_from_2bit whatami_to_2bit
zid_flags_fields zid router lo hi =
    ground (arith, flags_read 0 (length (as_bytes zid) - 1) router_table)
zid_flags_fields zid peer lo hi =
    ground (arith, flags_read 1 (length (as_bytes zid) - 1) peer_table)
zid_flags_fields zid client lo hi =
    ground (arith, flags_read 2 (length (as_bytes zid) - 1) client_table)

-- The flags byte as the protocol has it: the length less one in the upper half, the role below.
abbrev pub role : WhatAmI → ℕ
role router = 0
role peer = 1
role client = 2

abbrev pub flags_byte : WhatAmI → ℕ → ℕ
flags_byte w n = (n - 1) * 16 + role w

abbrev sum_law : ℕ → ℕ → Bool
sum_law r n = flags_of n r == n * 16 + r

router_sums : holds_below 16 (sum_law 0) ≡ true
unfolding holds_below
router_sums = refl

peer_sums : holds_below 16 (sum_law 1) ≡ true
unfolding holds_below
peer_sums = refl

client_sums : holds_below 16 (sum_law 2) ≡ true
unfolding holds_below
client_sums = refl

pub zid_flags-flags_byte :
    (zid : ZenohId) (w : WhatAmI)
    → 1 ≤ length (as_bytes zid)
    → length (as_bytes zid) ≤ 16
    → zid_flags zid w ≡ flags_byte w (length (as_bytes zid))
unfolding zid_flags whatami_to_2bit
zid_flags-flags_byte zid router lo hi =
    ==→eq _ _ (from_table 16 (sum_law 0) (length (as_bytes zid) - 1) router_sums (omega arith))
zid_flags-flags_byte zid peer lo hi =
    ==→eq _ _ (from_table 16 (sum_law 1) (length (as_bytes zid) - 1) peer_sums (omega arith))
zid_flags-flags_byte zid client lo hi =
    ==→eq _ _ (from_table 16 (sum_law 2) (length (as_bytes zid) - 1) client_sums (omega arith))

-- The resolution and the batch size.
abbrev pub batch_image : ℕ → Option ℕ → List ℕ
batch_image resolution none = []
batch_image resolution (some size) = resolution ∷ le_bytes 2 size

abbrev syn_header : Option ℕ → ℕ
syn_header none = 0x01
syn_header (some size) = 0x41

abbrev pub init_syn_image : InitSyn → List ℕ
init_syn_image msg =
    syn_header msg.batch_size
    ∷ msg.version
    ∷ flags_byte msg.whatami (length (as_bytes msg.zid))
    ∷ (as_bytes msg.zid ++ batch_image 0x00 msg.batch_size)

write_batch-image : (b : Option ℕ) → write_batch b ≡ write_slice (batch_image 0x00 b)
unfolding write_batch
write_batch-image none = sym write_slice-nil
write_batch-image (some size) = refl

init_header-syn_header : (b : Option ℕ) → init_header b ≡ syn_header b
unfolding init_header
init_header-syn_header none = refl
init_header-syn_header (some size) = refl

pub encode_init_syn-init_syn_image :
    (msg : InitSyn)
    → 1 ≤ length (as_bytes msg.zid)
    → length (as_bytes msg.zid) ≤ 16
    → encode_init_syn msg ≡ write_slice (init_syn_image msg)
unfolding encode_init_syn
encode_init_syn-init_syn_image msg h hi =
    rw
      (
        ne→== (length (as_bytes msg.zid)) 0 (omega arith),
        write_batch-image msg.batch_size,
        init_header-syn_header msg.batch_size,
        zid_flags-flags_byte msg.zid msg.whatami h hi,
      )
      (simp (write_byte-slice, write_slice-append))

-- An InitAck as a router sends it: INIT with the A flag, S where a batch size is announced, and Z
-- where extensions follow.
abbrev pub ack_header : Option ℕ → Bool → ℕ
ack_header none false = 0x21
ack_header (some size) false = 0x61
ack_header none true = 0xa1
ack_header (some size) true = 0xe1

abbrev pub init_ack_image : ℕ → List Extension → InitAck → List ℕ
init_ack_image resolution extensions ack =
    ack_header ack.batch_size (extended extensions)
    ∷ ack.version
    ∷ flags_byte ack.whatami (length (as_bytes ack.zid))
    ∷ (as_bytes ack.zid
        ++ (batch_image resolution ack.batch_size
            ++ (slice_image ack.cookie ++ chain_image extensions)))

-- What the protocol allows in an InitAck: an identifier of 1 to 16 bytes and a u16; and a cookie of
-- which the length is below that of usize.
pub record IsInitAck (ack : InitAck) (id : List ℕ) : Type 0 where
  pub zid : ack.zid ≡ from_bytes id
  pub some_id : 1 ≤ length id
  pub short_id : length id ≤ 16
  pub cookie : length ack.cookie + 10 < usize_size
  pub batch : (size : ℕ) → ack.batch_size ≡ some size → size < 2 ^ 16
