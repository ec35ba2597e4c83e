-- ===== src/Ros2/Qos/Announced.antt =====
-- The text that a profile is announced with.
use zenoh_ros2_nostd.Common.{
  ℕ, ◌^◌, ◌≤◌, ◌<◌, ◌≡◌, refl, ◌∙◌, List, [], ◌∷◌, ◌++◌, length, length-append, Bool-cases, inl,
  inr, le→ltb, ◌==◌, if◌then◌else◌, arith, ok,
}
use zenoh_ros2_nostd.Ros2.Text.{push_char, write_u32}
use zenoh_ros2_nostd.Ros2.Text.Decimal.{decimal, write_u32-push_str, length-decimal}
use zenoh_ros2_nostd.Ros2.Text.Push.{
  push_str-ok, push_str-nil, IsPart, push_str-IsPart, equal-IsPart, skip-IsPart,
}
use zenoh_ros2_nostd.Ros2.Qos.{
  Reliability, Durability, History, Qos, best_effort, reliable, volatile, transient_local,
  keep_last, keep_all, depth, push_u8, push_unless, to_rmw_qos_keyexpr, max_qos_keyexpr_len,
  reliability_value, durability_value, history_value,
}

-- What differs from the defaults of rmw_zenoh.
abbrev pub reliability_text : Reliability → List ℕ
reliability_text best_effort = b'2' ∷ []
reliability_text reliable = []

abbrev pub durability_text : Durability → List ℕ
durability_text volatile = []
durability_text transient_local = b'1' ∷ []

abbrev pub history_text : History → List ℕ
history_text (keep_last d) = []
history_text keep_all = b'2' ∷ []

abbrev pub depth_text : ℕ → List ℕ
depth_text d = if d == 42 then [] else decimal d

abbrev pub qos_text : Qos → List ℕ
qos_text q =
    reliability_text q.reliability
    ++ (b':'
        ∷ (durability_text q.durability
            ++ (b':'
                ∷ (history_text q.history
                    ++ (b','
                        ∷ (depth_text (depth q.history)
                            ++ (b':' ∷ b',' ∷ b':' ∷ b',' ∷ b':' ∷ b',' ∷ b',' ∷ [])))))))

reliability-IsPart :
    (r : Reliability)
    → IsPart max_qos_keyexpr_len
        (reliability_text r)
        (push_unless (reliability_value r == 1) (push_u8 max_qos_keyexpr_len (reliability_value r)))
unfolding reliability_value push_u8
reliability-IsPart best_effort = push_str-IsPart max_qos_keyexpr_len (b'2' ∷ [])
reliability-IsPart reliable = skip-IsPart max_qos_keyexpr_len

durability-IsPart :
    (d : Durability)
    → IsPart max_qos_keyexpr_len
        (durability_text d)
        (push_unless (durability_value d == 2) (push_u8 max_qos_keyexpr_len (durability_value d)))
unfolding durability_value push_u8
durability-IsPart volatile = skip-IsPart max_qos_keyexpr_len
durability-IsPart transient_local = push_str-IsPart max_qos_keyexpr_len (b'1' ∷ [])

history-IsPart :
    (h : History)
    → IsPart max_qos_keyexpr_len
        (history_text h)
        (push_unless (history_value h == 1) (push_u8 max_qos_keyexpr_len (history_value h)))
unfolding history_value push_u8
history-IsPart (keep_last d) = skip-IsPart max_qos_keyexpr_len
history-IsPart keep_all = push_str-IsPart max_qos_keyexpr_len (b'2' ∷ [])

depth-IsPart :
    (d : ℕ)
    → d < 2 ^ 32
    → IsPart max_qos_keyexpr_len
        (depth_text d)
        (push_unless (d == 42) (write_u32 max_qos_keyexpr_len d))
depth-IsPart d h = elim (Bool-cases (d == 42)) [
  | inl e ↦ rw e (skip-IsPart max_qos_keyexpr_len)
  | inr e ↦ rw e (
      equal-IsPart max_qos_keyexpr_len (decimal d) (write_u32 max_qos_keyexpr_len d)
        (λ s. write_u32-push_str max_qos_keyexpr_len d s h))
]

mark : (c : ℕ) → IsPart max_qos_keyexpr_len (c ∷ []) (push_char max_qos_keyexpr_len c)
mark c = push_str-IsPart max_qos_keyexpr_len (c ∷ [])

length-reliability_text : (r : Reliability) → length (reliability_text r) ≤ 1
length-reliability_text best_effort = omega arith
length-reliability_text reliable = omega arith

length-durability_text : (d : Durability) → length (durability_text d) ≤ 1
length-durability_text volatile = omega arith
length-durability_text transient_local = omega arith

length-history_text : (h : History) → length (history_text h) ≤ 1
length-history_text (keep_last d) = omega arith
length-history_text keep_all = omega arith

length-depth_text : (d : ℕ) → length (depth_text d) ≤ 10
length-depth_text d = elim (Bool-cases (d == 42)) [
  | inl e ↦ rw e (omega arith)
  | inr e ↦ rw e (length-decimal d)
]

pub length-qos_text : (q : Qos) → length (qos_text q) ≤ 23
length-qos_text q =
    let rest = b':' ∷ b',' ∷ b':' ∷ b',' ∷ b':' ∷ b',' ∷ b',' ∷ [] in
    let after_history = b',' ∷ (depth_text (depth q.history) ++ rest) in
    let after_durability = b':' ∷ (history_text q.history ++ after_history) in
    let after_reliability = b':' ∷ (durability_text q.durability ++ after_durability) in
    omega (
      arith,
      length-append (reliability_text q.reliability) after_reliability,
      length-append (durability_text q.durability) after_durability,
      length-append (history_text q.history) after_history,
      length-append (depth_text (depth q.history)) rest,
      length-reliability_text q.reliability,
      length-durability_text q.durability,
      length-history_text q.history,
      length-depth_text (depth q.history),
    )

-- A profile is announced as its policies, each left out where it is what rmw_zenoh takes for
-- granted, with the marks between them; that never fails, since it has at most 23 bytes, for a depth
-- of 32 bits.
pub to_rmw_qos_keyexpr-qos_text :
    (q : Qos)
    → depth q.history < 2 ^ 32
    → (to_rmw_qos_keyexpr q ≡ ok (qos_text q)) × (length (qos_text q) ≤ 23)
unfolding to_rmw_qos_keyexpr
to_rmw_qos_keyexpr-qos_text q h = (
  reliability-IsPart q.reliability _ [] _ (λ s. mark b':' _ s _ (λ s.
        durability-IsPart q.durability _ s _ (λ s. mark b':' _ s _ (λ s.
          history-IsPart q.history _ s _ (λ s. mark b',' _ s _ (λ s.
            depth-IsPart (depth q.history) h _ s _ (λ s. mark b':' _ s _ (λ s. mark b',' _ s _ (λ s.
              mark b':' _ s _ (λ s. mark b',' _ s _ (λ s. mark b':' _ s _ (λ s.
                mark b',' _ s _ (λ s. push_str-ok max_qos_keyexpr_len (b',' ∷ []) s)))))))))))))
      ∙ push_str-nil max_qos_keyexpr_len (qos_text q)
      ∙ rw (le→ltb 128 (length (qos_text q)) (omega (arith, length-qos_text q))) refl,
  length-qos_text q,
)
