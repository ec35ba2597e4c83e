-- ===== src/Tests/Sessions.antt =====
-- Sessions over a link in memory.
use zenoh_ros2_nostd.Common.{
  ℕ, ◌+◌, ◌%◌, ◌<◌, ◌≡◌, refl, ap, List, [], ◌∷◌, ◌++◌, true, false, none, some, length, replicate,
  arith, ok, err, panic,
}
use zenoh_ros2_nostd.Error.{connection_closed, frame_too_large}
use zenoh_ros2_nostd.Error.Top.{Error, transport}
use zenoh_ros2_nostd.Transport.Frame.RoundTrip.{frame_image}
use zenoh_ros2_nostd.Transport.Vbyte.{u64_size}
use zenoh_ros2_nostd.Transport.Vbyte.Encode.{groups}
use zenoh_ros2_nostd.Transport.Slice.RoundTrip.{slice_image}
use zenoh_ros2_nostd.Transport.Slice.Utf8.{is_utf8}
use zenoh_ros2_nostd.Transport.Codec.Header.{
  encode_frame_header, decode_frame_header, parse_transport_msg_kind, frame,
}
use zenoh_ros2_nostd.Transport.Codec.Header.RoundTrip.{decode_frame_header-encode_frame_header}
use zenoh_ros2_nostd.Transport.Codec.Put.RoundTrip.{push_image}
use zenoh_ros2_nostd.Transport.Codec.Declare.Image.{named_image, mapped_image}
use zenoh_ros2_nostd.Transport.Codec.Service.Bounds.{decode_response_bounds}
use zenoh_ros2_nostd.Transport.Codec.Put.Bounds.{EndsWith}
use zenoh_ros2_nostd.Transport.Codec.Put.{read_suffix, read_put_body, read_timestamp}
use zenoh_ros2_nostd.Transport.Reader.{read_with, read_when, read_byte}
use zenoh_ros2_nostd.Transport.Vbyte.{decode_vbyte}
use zenoh_ros2_nostd.Transport.Slice.{decode_slice}
use zenoh_ros2_nostd.Transport.Codec.Service.{
  decode_response_msg, read_reply, u32_size, decode_response, reply,
}
use zenoh_ros2_nostd.Transport.Codec.Service.RoundTrip.{decode_response-response_image}
use zenoh_ros2_nostd.Transport.Codec.Service.Image.{Parts, IsParts, response_image}
use zenoh_ros2_nostd.Transport.Codec.Extension.Chain.{plain, opaque_field}
use zenoh_ros2_nostd.Session.{
  Session, SessionConfig, fresh, opened, closing, disconnected, u16_size, put, subscribe, receive,
  recv_once, close_session,
}
use zenoh_ros2_nostd.Session.Publish.{reliable_image, numbered, put-sent, put_full, subscribe-sent}
use zenoh_ros2_nostd.Session.Receive.{receive-keepalive_close, recv_once_empty, recv_once-put}
use zenoh_ros2_nostd.Session.Lifecycle.{close_session-sent, close_image}
use zenoh_ros2_nostd.Tests.MemoryLink.{Memory, memory_link, memory-Promises, memory-IsWritable}
use zenoh_ros2_nostd.Tests.Messages.{our_id, key, hello, answer}

decode_frame_header-encode_frame_header_example :
    (header : ℕ) × (w : List ℕ) × (r : List ℕ) × (encode_frame_header 300 true (replicate 16 0)
      ≡ ok (header ∷ w, r))
    × (decode_frame_header ((header ∷ w) ++ (7 ∷ [])) ≡ ok (300, true, length (header ∷ w)))
    × (parse_transport_msg_kind header ≡ frame)
decode_frame_header-encode_frame_header_example =
    decode_frame_header-encode_frame_header 300 true (replicate 16 0) (7 ∷ []) (omega arith)
      (omega arith)

-- A Response with an extension in the Reply, a consolidation and an encoding, without a suffix.
abbrev pub parts : Parts
parts = record {
  named = false;
  response_extensions = [];
  consolidation = some 1;
  reply_extensions = opaque_field 3 (7 ∷ []) ∷ plain 1 ∷ [];
  encoding = some 300;
  put_extensions = [];
}

pub parts-IsParts : IsParts parts
parts-IsParts = record {
  response_extensions = tt;
  consolidation = omega arith;
  reply_extensions = ((omega arith, omega arith), (omega arith, tt));
  encoding = omega arith;
  put_extensions = tt;
}

decode_response-response_image_example :
    decode_response (response_image parts 5 2 [] hello ++ (9 ∷ []))
    ≡ ok (
        some (
          reply (record { request_id = 5; scope = 2; key_suffix = []; payload = hello }),
          length (response_image parts 5 2 [] hello),
        ))
unfolding is_utf8
decode_response-response_image_example =
    decode_response-response_image parts 5 2 [] hello (9 ∷ []) parts-IsParts (omega arith)
      (omega arith) refl (omega arith) (omega arith)

abbrev config : SessionConfig
config = record { zid = our_id; domain_id = 0 }

abbrev publisher : Session Memory
publisher = record (fresh {L = Memory} ([], []) config) { state = opened; sn_reliable = 4 }

put-sent_example :
    let (answer, s') = put memory_link 512 4_096 key hello publisher in
    (answer ≡ ok tt)
    × (s'.link.0 ≡ [] ++ frame_image (reliable_image 4 (push_image key 0 hello)))
    × (s'.link.1 ≡ [])
    × (s' ≡ numbered publisher s'.link)
put-sent_example =
    put-sent memory_link 512 4_096 memory-Promises memory-IsWritable key hello publisher
      (omega arith) (omega arith) (omega arith)

put_full_example :
    put memory_link 8 4_096 key hello publisher
    ≡ (err (transport frame_too_large), numbered publisher ([], []))
unfolding slice_image groups
put_full_example =
    put_full memory_link 8 4_096 key hello publisher (omega arith) (omega arith) (omega arith)
      (omega arith)

subscribe-sent_example :
    let (answer, s') = subscribe memory_link 512 4_096 (b'r' ∷ b't' ∷ []) publisher in
    (answer ≡ ok 1)
    × (s'.link.0
        ≡ []
          ++ (frame_image (reliable_image 4 (named_image 0x20 1 (b'r' ∷ b't' ∷ [])))
              ++ frame_image (reliable_image ((4 + 1) % u64_size) (mapped_image 0x42 1 1))))
    × (s'.link.1 ≡ [])
    × (s'.sn_reliable ≡ (4 + 2) % u64_size)
    × (s'.next_key_id ≡ (1 + 1) % u16_size)
subscribe-sent_example =
    subscribe-sent memory_link 512 4_096 memory-Promises memory-IsWritable b'r' (b't' ∷ [])
      publisher (omega arith) (omega arith) (omega arith) (omega arith)

abbrev subscriber : List ℕ → Session Memory
subscriber input = record (fresh {L = Memory} ([], input) config) { state = opened }

abbrev delivery : List ℕ
delivery = frame_image (reliable_image 4 (push_image key 0 hello)) ++ (9 ∷ [])

sent_hello :
    (put memory_link 512 4_096 key hello publisher).1.link.0
    ≡ frame_image (reliable_image 4 (push_image key 0 hello))
sent_hello =
    (put-sent memory_link 512 4_096 memory-Promises memory-IsWritable key hello publisher
      (omega arith) (omega arith) (omega arith)).1

recv_once-put_example :
    let (answer, r') = recv_once memory_link 512 4_096 4_096 (subscriber delivery) in
    (answer ≡ ok (some (key, hello))) × (r'.link.1 ≡ 9 ∷ []) × (r'.link.0 ≡ [])
unfolding is_utf8 slice_image groups
recv_once-put_example =
    recv_once-put memory_link memory_link memory-Promises memory-Promises 512 4_096 4_096 key hello
      (9 ∷ []) publisher (subscriber delivery) memory-IsWritable refl (omega arith) (omega arith)
      (omega arith) (omega arith) (ap (λ t. t ++ (9 ∷ [])) sent_hello)

recv_once_empty_example :
    (recv_once memory_link 512 4_096 4_096 (subscriber (0 ∷ 0 ∷ []))).0 ≡ panic
recv_once_empty_example =
    recv_once_empty memory_link memory-Promises 512 4_096 4_096 (subscriber (0 ∷ 0 ∷ [])) [] refl

receive-keepalive_close_example :
    (receive (0x04 ∷ 1 ∷ []) ≡ ok none)
    × (receive (0x03 ∷ 1 ∷ []) ≡ err (transport connection_closed))
receive-keepalive_close_example = receive-keepalive_close (1 ∷ [])

close_session-sent_example :
    let (answer, s') = close_session memory_link 512 4_096 publisher in
    (answer ≡ ok tt → (s'.state ≡ disconnected) × (s'.link.0 ≡ [] ++ frame_image close_image))
    × ((e : Error) → answer ≡ err e → s'.state ≡ closing)
close_session-sent_example = close_session-sent memory_link memory-Promises 512 4_096 publisher

abbrev reply_bytes : List ℕ
reply_bytes = 0x3b ∷ 5 ∷ 0 ∷ 2 ∷ b'r' ∷ b't' ∷ 0x04 ∷ 0x01 ∷ 2 ∷ 1 ∷ 2 ∷ 7 ∷ []

decode_response_bounds_example : EndsWith reply_bytes 11 (1 ∷ 2 ∷ []) × (5 < u32_size)
unfolding decode_response_msg read_reply read_with decode_vbyte read_suffix decode_slice is_utf8
    read_when read_byte read_put_body read_timestamp
decode_response_bounds_example =
    decode_response_bounds reply_bytes
      (record { request_id = 5; scope = 0; key_suffix = key; payload = hello }) 11
      (unfold decode_response in refl)
