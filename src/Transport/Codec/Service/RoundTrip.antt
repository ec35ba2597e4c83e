-- ===== src/Transport/Codec/Service/RoundTrip.antt =====
-- What a service client reads from the answers of a router, Response with Reply and ResponseFinal.
use zenoh_ros2_nostd.Common.{
  ℕ, ◌+◌, ◌<◌, ◌≡◌, Bool, false, Option, none, List, ◌∷◌, ◌++◌, append_assoc, true, some, length,
  length-append, arith, ok,
}
use zenoh_ros2_nostd.Transport.Reader.{usize_size, read_byte, read_when, read_with}
use zenoh_ros2_nostd.Transport.Vbyte.{u64_size, decode_vbyte}
use zenoh_ros2_nostd.Transport.Vbyte.Encode.{vbyte}
use zenoh_ros2_nostd.Transport.Slice.RoundTrip.{slice_image}
use zenoh_ros2_nostd.Transport.Slice.Steps.{read_vbyte, read_slice}
use zenoh_ros2_nostd.Transport.Slice.Utf8.{is_utf8}
use zenoh_ros2_nostd.Transport.Codec.Put.RoundTrip.{read_key}
use zenoh_ros2_nostd.Transport.Codec.Put.{read_suffix, read_put_body, read_timestamp}
use zenoh_ros2_nostd.Transport.Codec.Header.{has_flag}
use zenoh_ros2_nostd.Transport.Codec.Extension.Chain.{extended, chain_image, read_when-chain_image}
use zenoh_ros2_nostd.Transport.Protocol.Flags.{flag_z}
use zenoh_ros2_nostd.Transport.Codec.Service.{
  decode_response, decode_response_msg, decode_response_final, read_reply, reply, final, u32_size,
}
use zenoh_ros2_nostd.Transport.Codec.Service.Image.{
  Parts, IsParts, IsNumber, present, number_image, suffix_image, suffix_of, response_header,
  reply_head, put_head, put_tail, reply_tail, response_tail, response_image, response_header_fields,
  reply_head_fields, put_head_fields, number_or,
}

read_when-number_image :
    (o : Option ℕ) (pos : ℕ) (rest : List ℕ)
    → IsNumber o
    → read_when (present o) 0 (read_with decode_vbyte) pos (number_image o ++ rest)
      ≡ ok (number_or o, pos + length (number_image o), rest)
unfolding read_when
read_when-number_image none pos rest h = ground arith
read_when-number_image (some v) pos rest h = read_vbyte v pos rest h

read_suffix-suffix_image :
    (named : Bool) (key : List ℕ) (pos : ℕ) (rest : List ℕ)
    → is_utf8 key ≡ true
    → length key + 10 < usize_size
    → read_suffix named pos (suffix_image named key ++ rest)
      ≡ ok (suffix_of named key, pos + length (suffix_image named key), rest)
read_suffix-suffix_image true key pos rest u h = read_key key pos rest u h
read_suffix-suffix_image false key pos rest u h = unfold read_suffix in ground arith

read_put_body-put_tail :
    (parts : Parts) (payload : List ℕ) (pos : ℕ) (rest : List ℕ)
    → IsParts parts
    → length payload + 10 < usize_size
    → read_put_body
        (put_head (present parts.encoding) (extended parts.put_extensions))
        pos
        (put_tail parts payload ++ rest)
      ≡ ok (payload, pos + length (put_tail parts payload), rest)
unfolding read_put_body read_timestamp
read_put_body-put_tail parts payload pos rest v hp =
    let e = number_image parts.encoding in
    let x = chain_image parts.put_extensions in
    let (kind, t, en, z) =
      put_head_fields (present parts.encoding) (extended parts.put_extensions) in
    rw
      (
        t,
        en,
        z,
        append_assoc e (x ++ slice_image payload) rest,
        append_assoc x (slice_image payload) rest,
        read_when-number_image parts.encoding pos (x ++ (slice_image payload ++ rest)) v.encoding,
        read_when-chain_image parts.put_extensions (pos + length e) (slice_image payload ++ rest)
            v.put_extensions,
        read_slice payload (pos + length e + length x) rest hp,
      )
      (ground
        (arith, length-append e (x ++ slice_image payload), length-append x (slice_image payload)))

read_reply-response_tail :
    (parts : Parts) (payload : List ℕ) (header pos : ℕ) (rest : List ℕ)
    → has_flag header flag_z ≡ extended parts.response_extensions
    → IsParts parts
    → length payload + 10 < usize_size
    → read_reply header pos (response_tail parts payload ++ rest)
      ≡ ok (some payload, pos + length (response_tail parts payload), rest)
unfolding read_reply read_byte
read_reply-response_tail parts payload header pos rest hz v hp =
    let x = chain_image parts.response_extensions in
    let c = number_image parts.consolidation in
    let y = chain_image parts.reply_extensions in
    let tail = put_tail parts payload in
    let put = put_head (present parts.encoding) (extended parts.put_extensions) in
    let head = reply_head (present parts.consolidation) (extended parts.reply_extensions) in
    let (kind, cc', z) =
      reply_head_fields (present parts.consolidation) (extended parts.reply_extensions) in
    let (put_kind, t, en, pz) =
      put_head_fields (present parts.encoding) (extended parts.put_extensions) in
    let p1 = pos + length x + 1 in
    rw
      (
        hz,
        append_assoc x (head ∷ reply_tail parts payload) rest,
        append_assoc c (y ++ (put ∷ tail)) rest,
        append_assoc y (put ∷ tail) rest,
        read_when-chain_image parts.response_extensions pos
            (head ∷ (c ++ (y ++ (put ∷ (tail ++ rest))))) v.response_extensions,
        kind,
        cc',
        z,
        read_when-number_image parts.consolidation p1 (y ++ (put ∷ (tail ++ rest))) v.consolidation,
        read_when-chain_image parts.reply_extensions (p1 + length c) (put ∷ (tail ++ rest))
            v.reply_extensions,
        put_kind,
        read_put_body-put_tail parts payload (p1 + length c + length y + 1) rest v hp,
      )
      (ground (
        arith,
        length-append x (head ∷ reply_tail parts payload),
        length-append c (y ++ (put ∷ tail)),
        length-append y (put ∷ tail),
      ))

-- A client reads the request, the wire expression and the payload of a Reply with a Put as the router
-- meant them, over any extensions, consolidation and encoding, whatever follows, and stops right
-- behind the message. The request number has 32 bits, the suffix, if there is one, is UTF-8, the Put
-- has no timestamp, and the sizes are below that of usize.
pub decode_response-response_image :
    (parts : Parts) (request_id scope : ℕ) (key payload rest : List ℕ)
    → IsParts parts
    → request_id < u32_size
    → scope < u64_size
    → is_utf8 key ≡ true
    → length key + 10 < usize_size
    → length payload + 10 < usize_size
    → decode_response (response_image parts request_id scope key payload ++ rest)
      ≡ ok (
          some (
            reply (record {
              request_id = request_id;
              scope = scope;
              key_suffix = suffix_of parts.named key;
              payload = payload;
            }),
            length (response_image parts request_id scope key payload),
          ))
unfolding decode_response decode_response_msg
decode_response-response_image parts request_id scope key payload rest v hr hs u hk hp =
    let tail = response_tail parts payload in
    let suffix = suffix_image parts.named key in
    let header = response_header parts.named (extended parts.response_extensions) in
    let (not_final, response, n, z) =
      response_header_fields parts.named (extended parts.response_extensions) in
    let p1 = 1 + length (vbyte request_id) in
    let p2 = p1 + length (vbyte scope) in
    rw
      (
        not_final,
        response,
        n,
        append_assoc (vbyte request_id) (vbyte scope ++ (suffix ++ tail)) rest,
        append_assoc (vbyte scope) (suffix ++ tail) rest,
        append_assoc suffix tail rest,
        read_vbyte request_id 1 (vbyte scope ++ (suffix ++ (tail ++ rest))) (omega arith),
        read_vbyte scope p1 (suffix ++ (tail ++ rest)) hs,
        read_suffix-suffix_image parts.named key p2 (tail ++ rest) u hk,
        read_reply-response_tail parts payload header (p2 + length suffix) rest z v hp,
      )
      (ground (
        arith,
        length-append (vbyte request_id) (vbyte scope ++ (suffix ++ tail)),
        length-append (vbyte scope) (suffix ++ tail),
        length-append suffix tail,
      ))

-- The message that ends the answers to a request names that request.
pub decode_response-final_image :
    (request_id : ℕ) (rest : List ℕ)
    → request_id < u32_size
    → decode_response (0x1a ∷ (vbyte request_id ++ rest))
      ≡ ok (some (final request_id, 1 + length (vbyte request_id)))
unfolding decode_response decode_response_final read_when
decode_response-final_image request_id rest h =
    rw (read_vbyte request_id 1 rest (omega arith)) (ground arith)
