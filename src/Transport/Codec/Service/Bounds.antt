-- ===== src/Transport/Codec/Service/Bounds.antt =====
-- `decode_response` of src/transport/codec.rs on any bytes.
use zenoh_ros2_nostd.Common.{
  ℕ, ◌==◌, ◌%◌, ◌<◌, ◌≡◌, ◌≢◌, List, [], ◌∷◌, Option, none, some, arith, ok, >>=-eq-ok, Bool-cases,
  inl, inr, not, if◌then◌else◌, ◌>>=◌,
}
use mathlib.Core.Path.{subst₂}
use zenoh_ros2_nostd.Error.{Wire}
use zenoh_ros2_nostd.Transport.Reader.{Step, read_byte, read_with, read_when}
use zenoh_ros2_nostd.Transport.Reader.Advance.{
  Advances, Advances-trans, read_byte-IsForward, read_when-IsForward, Cuts, Cuts-after,
}
use zenoh_ros2_nostd.Transport.Vbyte.{decode_vbyte}
use zenoh_ros2_nostd.Transport.Protocol.Ids.{
  network_response, network_response_final, zenoh_put, zenoh_reply,
}
use zenoh_ros2_nostd.Transport.Protocol.Flags.{flag_n, flag_z, reply_c}
use zenoh_ros2_nostd.Transport.Codec.Header.{has_flag, msg_id}
use zenoh_ros2_nostd.Transport.Codec.Extension.{skip_extensions}
use zenoh_ros2_nostd.Transport.Codec.Put.{read_suffix, read_put_body}
use zenoh_ros2_nostd.Transport.Codec.Put.Bounds.{
  number-IsForward, extensions-IsForward, read_suffix-IsForward, read_put_body-IsCut, EndsWith,
  cut-EndsWith,
}
use zenoh_ros2_nostd.Transport.Codec.Service.{
  IncomingReply, ResponseMsg, reply, u32_size, read_reply, decode_response_msg,
  decode_response_final, decode_response,
}

some_payload :
    (made payload : List ℕ) (p pos : ℕ) (r rest' rest : List ℕ) (start : ℕ)
    → ◌≡◌ {A = Wire (Option (List ℕ) × ℕ × List ℕ)}
        (ok (some made, p, r))
        (ok (some payload, pos, rest'))
    → Cuts start rest made p r
    → Cuts start rest payload pos rest'
some_payload made payload p pos r rest' rest start same c = ground (arith, c, same)

-- What stands behind the header of a Reply's body.
abbrev put_part : ℕ → Step (Option (List ℕ))
put_part put_header pos rest =
    if not (msg_id put_header == zenoh_put)
    then ok (none, pos, rest)
    else (do (payload, pos, rest) ← read_put_body put_header pos rest; ok (some payload, pos, rest))

put_part-Cuts :
    (put_header pos : ℕ) (rest payload : List ℕ) (pos' : ℕ) (rest' : List ℕ)
    → put_part put_header pos rest ≡ ok (some payload, pos', rest')
    → Cuts pos rest payload pos' rest'
put_part-Cuts put_header pos rest payload pos' rest' e =
    elim (Bool-cases (msg_id put_header == zenoh_put)) [
      | inl is_put ↦
          let ((made, p, r), ran, same) =
            >>=-eq-ok (read_put_body put_header pos rest) _ (rw is_put at e) in
          some_payload made payload p pos' r rest' rest pos same
            (read_put_body-IsCut put_header pos rest made p r ran)
      | inr other ↦ cc (rw other at e)
    ]

-- A Reply that is found ends with its payload.
read_reply-Cuts :
    (header pos : ℕ) (rest payload : List ℕ) (pos' : ℕ) (rest' : List ℕ)
    → read_reply header pos rest ≡ ok (some payload, pos', rest')
    → Cuts pos rest payload pos' rest'
unfolding read_reply
read_reply-Cuts header pos rest payload pos' rest' e =
    let ((u, p1, r1), e1, f1) =
      >>=-eq-ok (read_when (has_flag header flag_z) tt skip_extensions pos rest) _ e in
    let ((reply_header, p2, r2), e2, f2) = >>=-eq-ok (read_byte p1 r1) _ f1 in
    let prefix =
      Advances-trans (extensions-IsForward (has_flag header flag_z) pos rest u p1 r1 e1)
        (read_byte-IsForward p1 r1 reply_header p2 r2 e2) in
    elim (Bool-cases (msg_id reply_header == zenoh_reply)) [
      | inl is_reply ↦
          let ((n, p3, r3), e3, f3) =
            >>=-eq-ok (read_when (has_flag reply_header reply_c) 0 (read_with decode_vbyte) p2 r2) _
              (rw is_reply at f2) in
          let ((u', p4, r4), e4, f4) =
            >>=-eq-ok (read_when (has_flag reply_header flag_z) tt skip_extensions p3 r3) _ f3 in
          let ((put_header, p5, r5), e5, f5) = >>=-eq-ok (read_byte p4 r4) _ f4 in
          let middle =
            Advances-trans
              (read_when-IsForward (has_flag reply_header reply_c) 0 (read_with decode_vbyte)
                number-IsForward p2 r2 n p3 r3 e3)
              (Advances-trans
                (extensions-IsForward (has_flag reply_header flag_z) p3 r3 u' p4 r4 e4)
                (read_byte-IsForward p4 r4 put_header p5 r5 e5)) in
          Cuts-after (Advances-trans prefix middle)
            (put_part-Cuts put_header p5 r5 payload pos' rest' f5)
      | inr other ↦ cc (rw other at f2)
    ]

-- What `decode_response_msg` makes of the payload that it found.
abbrev response_of : ℕ → ℕ → List ℕ → ℕ → Option (List ℕ) → Option (ResponseMsg × ℕ)
response_of request_id scope key_suffix pos found = elim found [
  | none ↦ none
  | some payload ↦ some (
    reply (record {
      request_id = request_id % u32_size;
      scope = scope;
      key_suffix = key_suffix;
      payload = payload;
    }),
    pos,
  )
]

final_reply :
    (header : ℕ) (rest : List ℕ) (r : IncomingReply) (pos : ℕ)
    → decode_response_final header rest ≢ ok (some (reply r, pos))
unfolding decode_response_final
final_reply header rest r pos e =
    let ((id, p1, r1), e1, f1) = >>=-eq-ok (read_with decode_vbyte 1 rest) _ e in
    let ((u, p2, r2), e2, f2) =
      >>=-eq-ok (read_when (has_flag header flag_z) tt skip_extensions p1 r1) _ f1 in
    cc

found_reply :
    (buf : List ℕ) (made r : IncomingReply) (p pos : ℕ)
    → ◌≡◌ {A = Wire (Option (ResponseMsg × ℕ))}
        (ok (some (reply made, p)))
        (ok (some (reply r, pos)))
    → EndsWith buf p made.payload
    → made.request_id < u32_size
    → EndsWith buf pos r.payload × (r.request_id < u32_size)
found_reply buf made r p pos same h small =
    let found : made ≡ r = cc in
    let at : p ≡ pos = cc in
    subst₂ (λ m k. EndsWith buf k m.payload × (m.request_id < u32_size)) found at (h, small)

response_msg_bounds :
    (header : ℕ) (rest : List ℕ) (r : IncomingReply) (pos : ℕ)
    → decode_response_msg header rest ≡ ok (some (reply r, pos))
    → EndsWith (header ∷ rest) pos r.payload × (r.request_id < u32_size)
unfolding decode_response_msg
response_msg_bounds header rest r pos e =
    let ((id, p1, r1), e1, f1) = >>=-eq-ok (read_with decode_vbyte 1 rest) _ e in
    let ((scope, p2, r2), e2, f2) = >>=-eq-ok (read_with decode_vbyte p1 r1) _ f1 in
    let ((key, p3, r3), e3, f3) = >>=-eq-ok (read_suffix (has_flag header flag_n) p2 r2) _ f2 in
    let ((found, p4, r4), e4, f4) = >>=-eq-ok (read_reply header p3 r3) _ f3 in
    let prefix = Advances-trans (number-IsForward 1 rest id p1 r1 e1) (
      Advances-trans (number-IsForward p1 r1 scope p2 r2 e2)
        (read_suffix-IsForward (has_flag header flag_n) p2 r2 key p3 r3 e3)) in
    last found id scope key p3 p4 r3 r4 prefix e4 f4
  where
    last :
        (found : Option (List ℕ)) (id scope : ℕ) (key : List ℕ) (p3 p4 : ℕ) (r3 r4 : List ℕ)
        → Advances 1 rest p3 r3
        → read_reply header p3 r3 ≡ ok (found, p4, r4)
        → ◌≡◌ {A = Wire (Option (ResponseMsg × ℕ))}
            (ok (response_of id scope key p4 found))
            (ok (some (reply r, pos)))
        → EndsWith (header ∷ rest) pos r.payload × (r.request_id < u32_size)
    last none id scope key p3 p4 r3 r4 prefix e4 same = cc
    last (some payload) id scope key p3 p4 r3 r4 prefix e4 same =
        found_reply (header ∷ rest) _ r p4 pos same
          (cut-EndsWith header (Cuts-after prefix (read_reply-Cuts header p3 r3 payload p4 r4 e4)))
          (omega arith)

-- Any bytes in which `decode_response` finds a Reply: its payload lies inside the frame and ends
-- where the message ends, and its request number fits a u32.
pub decode_response_bounds :
    (buf : List ℕ) (r : IncomingReply) (pos : ℕ)
    → decode_response buf ≡ ok (some (reply r, pos))
    → EndsWith buf pos r.payload × (r.request_id < u32_size)
unfolding decode_response
decode_response_bounds [] r pos e = cc
decode_response_bounds (header ∷ rest) r pos e =
    elim (Bool-cases (msg_id header == network_response_final)) [
      | inl is_final ↦ absurd (final_reply header rest r pos (rw is_final at e))
      | inr not_final ↦ elim (Bool-cases (msg_id header == network_response)) [
        | inl is_response ↦ response_msg_bounds header rest r pos (rw (not_final, is_response) at e)
        | inr other ↦ cc (rw (not_final, other) at e)
      ]
    ]
