-- ===== src/Transport/Codec/Service/Image.antt =====
-- A Response with a Reply and a Put as a router sends it, with all that may stand in it besides.
use zenoh_ros2_nostd.Common.{
  ℕ, ◌+◌, ◌<◌, ◌≡◌, refl, All, Bool, false, Option, none, ◌==◌, if◌then◌else◌, List, [], ◌∷◌, ◌++◌,
  true, some,
}
use zenoh_ros2_nostd.Transport.Vbyte.{u64_size}
use zenoh_ros2_nostd.Transport.Vbyte.Encode.{vbyte}
use zenoh_ros2_nostd.Transport.Slice.RoundTrip.{slice_image}
use zenoh_ros2_nostd.Transport.Codec.Header.{msg_id, has_flag}
use zenoh_ros2_nostd.Transport.Codec.Extension.Chain.{Extension, IsExtension, extended, chain_image}
use zenoh_ros2_nostd.Transport.Protocol.Ids.{
  network_response, network_response_final, zenoh_put, zenoh_reply,
}
use zenoh_ros2_nostd.Transport.Protocol.Flags.{flag_n, flag_z, reply_c, put_t, put_e}

-- What a router may put into a Response, a Reply and a Put besides what the client reads: chains of
-- extensions, a consolidation and an encoding. `named` says whether the wire expression has a suffix.
pub record Parts : Type 0 where
  pub named : Bool
  pub response_extensions : List Extension
  pub consolidation : Option ℕ
  pub reply_extensions : List Extension
  pub encoding : Option ℕ
  pub put_extensions : List Extension

abbrev pub IsNumber : Option ℕ → Type 0
IsNumber none = Unit {0}
IsNumber (some v) = v < u64_size

pub record IsParts (parts : Parts) : Type 0 where
  pub response_extensions : All IsExtension parts.response_extensions
  pub consolidation : IsNumber parts.consolidation
  pub reply_extensions : All IsExtension parts.reply_extensions
  pub encoding : IsNumber parts.encoding
  pub put_extensions : All IsExtension parts.put_extensions

-- Without anything besides, and with a suffix.
abbrev pub plain_parts : Parts
plain_parts = record {
  named = true;
  response_extensions = [];
  consolidation = none;
  reply_extensions = [];
  encoding = none;
  put_extensions = [];
}

abbrev pub present : Option ℕ → Bool
present none = false
present (some v) = true

abbrev pub number_image : Option ℕ → List ℕ
number_image none = []
number_image (some v) = vbyte v

abbrev pub suffix_image : Bool → List ℕ → List ℕ
suffix_image true key = slice_image key
suffix_image false key = []

abbrev pub suffix_of : Bool → List ℕ → List ℕ
suffix_of true key = key
suffix_of false key = []

abbrev bit : ℕ → Bool → ℕ
bit n b = if b then n else 0

-- Response with N and Z, Reply with C and Z, Put with E and Z.
abbrev pub response_header : Bool → Bool → ℕ
response_header named z = 0x1b + bit 0x20 named + bit 0x80 z

abbrev pub reply_head : Bool → Bool → ℕ
reply_head c z = 0x04 + bit 0x20 c + bit 0x80 z

abbrev pub put_head : Bool → Bool → ℕ
put_head e z = 0x01 + bit 0x40 e + bit 0x80 z

abbrev pub put_tail : Parts → List ℕ → List ℕ
put_tail parts payload =
    number_image parts.encoding ++ (chain_image parts.put_extensions ++ slice_image payload)

abbrev pub reply_tail : Parts → List ℕ → List ℕ
reply_tail parts payload =
    number_image parts.consolidation
    ++ (chain_image parts.reply_extensions
        ++ (put_head (present parts.encoding) (extended parts.put_extensions)
            ∷ put_tail parts payload))

abbrev pub response_tail : Parts → List ℕ → List ℕ
response_tail parts payload =
    chain_image parts.response_extensions
    ++ (reply_head (present parts.consolidation) (extended parts.reply_extensions)
        ∷ reply_tail parts payload)

-- A Response with a Reply and a Put inside.
abbrev pub response_image : Parts → ℕ → ℕ → List ℕ → List ℕ → List ℕ
response_image parts request_id scope key payload =
    response_header parts.named (extended parts.response_extensions)
    ∷ (vbyte request_id
        ++ (vbyte scope ++ (suffix_image parts.named key ++ response_tail parts payload)))

pub response_header_fields :
    (n z : Bool)
    → ((msg_id (response_header n z) == network_response_final) ≡ false)
      × ((msg_id (response_header n z) == network_response) ≡ true)
      × (has_flag (response_header n z) flag_n ≡ n)
      × (has_flag (response_header n z) flag_z ≡ z)
response_header_fields true true = (refl, refl, refl, refl)
response_header_fields true false = (refl, refl, refl, refl)
response_header_fields false true = (refl, refl, refl, refl)
response_header_fields false false = (refl, refl, refl, refl)

pub reply_head_fields :
    (c z : Bool)
    → ((msg_id (reply_head c z) == zenoh_reply) ≡ true)
      × (has_flag (reply_head c z) reply_c ≡ c)
      × (has_flag (reply_head c z) flag_z ≡ z)
reply_head_fields true true = (refl, refl, refl)
reply_head_fields true false = (refl, refl, refl)
reply_head_fields false true = (refl, refl, refl)
reply_head_fields false false = (refl, refl, refl)

pub put_head_fields :
    (e z : Bool)
    → ((msg_id (put_head e z) == zenoh_put) ≡ true)
      × (has_flag (put_head e z) put_t ≡ false)
      × (has_flag (put_head e z) put_e ≡ e)
      × (has_flag (put_head e z) flag_z ≡ z)
put_head_fields true true = (refl, refl, refl, refl)
put_head_fields true false = (refl, refl, refl, refl)
put_head_fields false true = (refl, refl, refl, refl)
put_head_fields false false = (refl, refl, refl, refl)

abbrev pub number_or : Option ℕ → ℕ
number_or none = 0
number_or (some v) = v
