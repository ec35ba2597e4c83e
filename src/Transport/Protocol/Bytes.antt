-- ===== src/Transport/Protocol/Bytes.antt =====
-- src/transport/protocol.rs: the bytes of a ZenohId.
use zenoh_ros2_nostd.Common.{
  ℕ, ◌+◌, ◌-◌, ◌≤◌, ◌≡◌, refl, ap, sym, ◌%◌, bit_xor, set, get_or, length-set, ◌∙◌, List, [], ◌∷◌,
  ◌++◌, length, length-take, take, take_front, take_all, replicate, ltb, arith, Bool-cases, inl,
  inr, ltb→lt, ltb→le,
}
use zenoh_ros2_nostd.Transport.Protocol.{from_bytes, as_bytes, from_name, fold_name}

take_padded : (n : ℕ) (id zeros : List ℕ) → n ≤ length id → take n (take n id ++ zeros) ≡ take n id
take_padded n id zeros h =
    let size : n ≡ length (take n id) = omega (arith, length-take n id) in
    ap (λ k. take k (take n id ++ zeros)) size ∙ take_front (take n id) zeros

-- An identifier keeps the first sixteen of the bytes that it was made from, in their order.
pub as_bytes-from_bytes : (id : List ℕ) → as_bytes (from_bytes id) ≡ take 16 id
unfolding from_bytes as_bytes
as_bytes-from_bytes id = elim (Bool-cases (ltb 16 (length id))) [
  | inl long ↦ rw long (take_padded 16 id [] (omega (arith, ltb→lt 16 (length id) long)))
  | inr short ↦ rw short (
      take_padded (length id) id (replicate (16 - length id) 0) (omega arith)
      ∙ take_all (length id) id (omega arith)
      ∙ sym (take_all 16 id (ltb→le 16 (length id) short)))
]

pub as_bytes-from_bytes_short : (id : List ℕ) → length id ≤ 16 → as_bytes (from_bytes id) ≡ id
as_bytes-from_bytes_short id h = as_bytes-from_bytes id ∙ take_all 16 id h

length-fold_name : (bytes name : List ℕ) (i : ℕ) → length (fold_name bytes i name) ≡ length bytes
unfolding fold_name
length-fold_name bytes [] i = refl
length-fold_name bytes (b ∷ name) i =
    length-fold_name (set bytes (i % 8) (bit_xor (get_or bytes (i % 8) 0) b)) name (i + 1)
    ∙ length-set bytes (i % 8) (bit_xor (get_or bytes (i % 8) 0) b)

-- An identifier made from a name has eight bytes, whatever the name.
pub length-from_name : (name : List ℕ) → length (as_bytes (from_name name)) ≡ 8
unfolding from_name
length-from_name name = omega (
  arith,
  length-fold_name (replicate 8 0) name 0,
  ap length (
      as_bytes-from_bytes_short (fold_name (replicate 8 0) 0 name)
        (omega (arith, length-fold_name (replicate 8 0) name 0))),
)
