-- ===== src/Ros2/Text/Push.antt =====
-- Sequences of pushes.
use zenoh_ros2_nostd.Common.{
  ℕ, ◌+◌, ◌≡◌, List, [], ◌++◌, append_assoc, length, length-append, Bool-cases, inl, inr, ltb,
  if◌then◌else◌, arith, ok, err, ◌>>=◌, >>=_assoc, ap, sym, ◌∙◌,
}
use zenoh_ros2_nostd.Ros2.Text.{Text, push_str}

-- A push, and what is the push of more behind it, is the push of both.
pub push_str->>= :
    (capacity : ℕ) (xs ys s : List ℕ) (f : List ℕ → Text)
    → ((t : List ℕ) → f t ≡ push_str capacity ys t)
    → (push_str capacity xs s >>= f) ≡ push_str capacity (xs ++ ys) s
unfolding push_str
push_str->>= capacity xs ys s f h = elim (Bool-cases (ltb capacity (length s + length xs))) [
  | inl full ↦ rw full (ground (arith, length-append xs ys))
  | inr fits ↦
      rw (fits, h (s ++ xs))
        (ground (arith, length-append xs ys, length-append s xs, append_assoc s xs ys))
]

pub push_str-ok :
    (capacity : ℕ) (xs s : List ℕ) → (push_str capacity xs s >>= λ t. ok t) ≡ push_str capacity xs s
unfolding push_str
push_str-ok capacity xs s = ground arith

pub push_str-nil :
    (capacity : ℕ) (xs : List ℕ)
    → push_str capacity xs [] ≡ (if ltb capacity (length xs) then err tt else ok xs)
unfolding push_str
push_str-nil capacity xs = ground arith

-- A step that writes a text, in front of more text to be written.
abbrev pub IsPart : ℕ → List ℕ → (List ℕ → Text) → Type 0
IsPart capacity xs step =
    (ys s : List ℕ) (f : List ℕ → Text)
    → ((t : List ℕ) → f t ≡ push_str capacity ys t)
    → (step s >>= f) ≡ push_str capacity (xs ++ ys) s

pub push_str-IsPart : (capacity : ℕ) (xs : List ℕ) → IsPart capacity xs (push_str capacity xs)
push_str-IsPart capacity xs ys s f h = push_str->>= capacity xs ys s f h

pub equal-IsPart :
    (capacity : ℕ) (xs : List ℕ) (step : List ℕ → Text)
    → ((s : List ℕ) → step s ≡ push_str capacity xs s)
    → IsPart capacity xs step
equal-IsPart capacity xs step e ys s f h =
    ap (λ t. t >>= f) (e s) ∙ push_str->>= capacity xs ys s f h

pub skip-IsPart : (capacity : ℕ) → IsPart capacity [] (λ s. ok s)
skip-IsPart capacity ys s f h = h s

pub both-IsPart :
    (capacity : ℕ) (xs zs : List ℕ) (m k : List ℕ → Text)
    → IsPart capacity xs m
    → IsPart capacity zs k
    → IsPart capacity (xs ++ zs) (λ s. m s >>= k)
both-IsPart capacity xs zs m k hm hk ys s f h =
    >>=_assoc (m s) k f
    ∙ hm (zs ++ ys) s (λ t. k t >>= f) (λ t. hk ys t f h)
    ∙ ap (λ w. push_str capacity w s) (sym (append_assoc xs zs ys))
