-- ===== src/Transport/Codec/Put/Attached.antt =====
-- A Push with the attachment of a rmw_zenoh publisher, as it stands on the wire.
use zenoh_ros2_nostd.Common.{
  ℕ, ◌+◌, ◌≤◌, ◌<◌, ◌≡◌, refl, List, ◌∷◌, ◌++◌, append_assoc, true, some, length, length-append,
  drop, arith, ok,
}
use zenoh_ros2_nostd.Transport.Writer.{
  write_byte-slice, write_slice, write_slice-append, write_slice_fits,
}
use zenoh_ros2_nostd.Transport.Reader.{usize_size, read_when}
use zenoh_ros2_nostd.Transport.Vbyte.{u64_size}
use zenoh_ros2_nostd.Transport.Vbyte.Encode.{vbyte, encode_vbyte-vbyte, length-groups}
use zenoh_ros2_nostd.Transport.Slice.RoundTrip.{
  slice_image, encode_slice-slice_image, slice_image_bounds,
}
use zenoh_ros2_nostd.Transport.Slice.Steps.{read_slice}
use zenoh_ros2_nostd.Transport.Slice.Utf8.{is_utf8}
use zenoh_ros2_nostd.Transport.Protocol.{ZenohId}
use zenoh_ros2_nostd.Transport.Codec.Attachment.{attachment}
use zenoh_ros2_nostd.Transport.Codec.Attachment.Length.{length-attachment}
use zenoh_ros2_nostd.Transport.Codec.Extension.Skip.{skip_last_buffer}
use zenoh_ros2_nostd.Transport.Codec.Put.{
  encode_push_put_with_attachment, decode_push_put, read_timestamp, read_put_body,
}
use zenoh_ros2_nostd.Transport.Codec.Put.RoundTrip.{push_with, decode_push_with}

-- An opaque field is its length and its bytes; the attachment announces 33.
pub attachment_image :
    (seq_num timestamp_ns : ℕ) (gid : ZenohId)
    → vbyte 33 ++ attachment seq_num timestamp_ns gid
      ≡ slice_image (attachment seq_num timestamp_ns gid)
unfolding slice_image
attachment_image seq_num timestamp_ns gid = rw (length-attachment seq_num timestamp_ns gid)

-- What stands behind the Put header: the attachment as an extension, and the payload.
abbrev pub attached_tail : List ℕ → List ℕ → List ℕ
attached_tail extra payload = 0x43 ∷ (slice_image extra ++ slice_image payload)

read_attached :
    (extra payload : List ℕ) (pos : ℕ) (rest : List ℕ)
    → length extra + 10 < usize_size
    → length payload + 10 < usize_size
    → read_put_body 0x81 pos (attached_tail extra payload ++ rest)
      ≡ ok (payload, pos + length (attached_tail extra payload), rest)
unfolding read_put_body read_timestamp read_when
read_attached extra payload pos rest he hp =
    rw
      (
        append_assoc (slice_image extra) (slice_image payload) rest,
        skip_last_buffer 0x43 pos extra (slice_image payload ++ rest) refl refl he,
        read_slice payload (pos + 1 + length (slice_image extra)) rest hp,
      )
      (ground (arith, length-append (slice_image extra) (slice_image payload)))

abbrev pub attached_image : List ℕ → List ℕ → ℕ → ℕ → ZenohId → List ℕ
attached_image key payload seq_num timestamp_ns gid =
    push_with key 0x81 (attached_tail (attachment seq_num timestamp_ns gid) payload)

length-attached_image :
    (key payload : List ℕ) (seq_num timestamp_ns : ℕ) (gid : ZenohId)
    → length (attached_image key payload seq_num timestamp_ns gid)
      ≤ length key + length payload + 76
length-attached_image key payload seq_num timestamp_ns gid =
    let extra = attachment seq_num timestamp_ns gid in
    omega (
      arith,
      length-append (vbyte 0) (slice_image key ++ (0x81 ∷ attached_tail extra payload)),
      length-append (slice_image key) (0x81 ∷ attached_tail extra payload),
      length-append (slice_image extra) (slice_image payload),
      length-groups 9 0,
      slice_image_bounds key,
      slice_image_bounds extra,
      slice_image_bounds payload,
      length-attachment seq_num timestamp_ns gid,
    )

pub encode_push_put_with_attachment-attached_image :
    (key payload : List ℕ) (seq_num timestamp_ns : ℕ) (gid : ZenohId)
    → length key < u64_size
    → length payload < u64_size
    → encode_push_put_with_attachment key payload seq_num timestamp_ns gid
      ≡ write_slice (attached_image key payload seq_num timestamp_ns gid)
unfolding encode_push_put_with_attachment
encode_push_put_with_attachment-attached_image key payload seq_num timestamp_ns gid hk hp =
    rw
      (
        encode_vbyte-vbyte 0 (omega arith),
        encode_vbyte-vbyte 33 (omega arith),
        encode_slice-slice_image key hk,
        encode_slice-slice_image payload hp,
        ← attachment_image seq_num timestamp_ns gid,
      )
      (simp (write_byte-slice, write_slice-append, append_assoc))

-- A sample published for rmw_zenoh arrives: with room for it the encoder succeeds, whatever the
-- sequence number, the time and the publisher's identifier, and the receiver, who skips the
-- attachment, reads the same key and payload and stops right behind the message.
pub decode_push_put-encode_push_put_with_attachment :
    (key payload : List ℕ) (seq_num timestamp_ns : ℕ) (gid : ZenohId) (buf rest : List ℕ)
    → is_utf8 key ≡ true
    → length key + 10 < usize_size
    → length payload + 10 < usize_size
    → length key + length payload + 76 ≤ length buf
    → (w : List ℕ) × (r : List ℕ) × (encode_push_put_with_attachment key payload seq_num
          timestamp_ns gid buf
        ≡ ok (w, r))
      × (decode_push_put (w ++ rest)
          ≡ ok (some (record { scope = 0; key_suffix = key; payload = payload }, length w)))
decode_push_put-encode_push_put_with_attachment key payload seq_num timestamp_ns gid buf rest u hk
      hp room =
    let extra = attachment seq_num timestamp_ns gid in
    let image = attached_image key payload seq_num timestamp_ns gid in
    let short : length extra + 10 < usize_size =
      omega (arith, length-attachment seq_num timestamp_ns gid) in
    (
      image,
      drop (length image) buf,
      rw
          (encode_push_put_with_attachment-attached_image key payload seq_num timestamp_ns gid
            (omega arith) (omega arith))
          (write_slice_fits image buf
            (omega (arith, length-attached_image key payload seq_num timestamp_ns gid))),
      decode_push_with key 0x81 (attached_tail extra payload) payload rest u hk refl
          (λ pos. read_attached extra payload pos rest short hp),
    )
