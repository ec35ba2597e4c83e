-- ===== src/Ros2/Mangle/Image.antt =====
-- Mangled names in one piece.
use zenoh_ros2_nostd.Common.{
  ℕ, ◌≡◌, refl, ap, ◌∙◌, List, [], ◌∷◌, All, true, false, Bool-cases, inl, inr, ◌==◌, if◌then◌else◌,
}
use zenoh_ros2_nostd.Ros2.Text.{push_str}
use zenoh_ros2_nostd.Ros2.Text.Push.{push_str->>=, push_str-ok}
use zenoh_ros2_nostd.Ros2.Mangle.{
  is_root, starts_with_slash, mangled_char, push_chars, push_mangled, push_mangled_absolute,
}

abbrev pub mangled : List ℕ → List ℕ
mangled [] = []
mangled (c ∷ rest) = mangled_char c ∷ mangled rest

abbrev pub absolute : List ℕ → List ℕ
absolute name =
    if is_root name
    then b'%' ∷ []
    else (if starts_with_slash name then mangled name else b'%' ∷ mangled name)

abbrev pub NoSlash : List ℕ → Type 0
NoSlash name = All (λ c. (c == b'/') ≡ false) name

mangled_char_lem : (c : ℕ) → (mangled_char c == b'/') ≡ false
mangled_char_lem c = elim (Bool-cases (c == b'/')) [ inl e ↦ rw e refl | inr e ↦ rw (e, e) refl ]

mangled-NoSlash : (name : List ℕ) → NoSlash (mangled name)
mangled-NoSlash [] = tt
mangled-NoSlash (c ∷ rest) = (mangled_char_lem c, mangled-NoSlash rest)

pub absolute-NoSlash : (name : List ℕ) → NoSlash (absolute name)
absolute-NoSlash name = elim (Bool-cases (is_root name)) [
  | inl r ↦ rw r (refl, tt)
  | inr r ↦ elim (Bool-cases (starts_with_slash name)) [
    | inl h ↦ rw (r, h) (mangled-NoSlash name)
    | inr h ↦ rw (r, h) ((refl, mangled-NoSlash name))
  ]
]

push_chars-mangled :
    (capacity c : ℕ) (rest s : List ℕ)
    → push_chars capacity (c ∷ rest) s ≡ push_str capacity (mangled (c ∷ rest)) s
unfolding push_chars
push_chars-mangled capacity c [] s = push_str-ok capacity (mangled_char c ∷ []) s
push_chars-mangled capacity c (d ∷ rest) s =
    push_str->>= capacity (mangled_char c ∷ []) (mangled (d ∷ rest)) s
      (push_chars capacity (d ∷ rest)) (push_chars-mangled capacity d rest)

is_slash : (c : ℕ) → (c == b'/') ≡ true → mangled_char c ≡ b'%'
is_slash c h = rw h refl

no_slash : (c : ℕ) → (c == b'/') ≡ false → mangled_char c ≡ c
no_slash c h = rw h refl

no_slash_absolute :
    (c : ℕ) (rest : List ℕ) → (c == b'/') ≡ false → absolute (b'/' ∷ c ∷ rest) ≡ absolute (c ∷ rest)
no_slash_absolute c [] h = rw h refl
no_slash_absolute c (d ∷ rest) h = rw h refl

-- The mangled name of a node, a type or a hash.
abbrev pub relative : List ℕ → List ℕ
relative name = if is_root name then b'%' ∷ [] else mangled name

pub relative-NoSlash : (name : List ℕ) → NoSlash (relative name)
relative-NoSlash name = elim (Bool-cases (is_root name)) [
  | inl r ↦ rw r (refl, tt)
  | inr r ↦ rw r (mangled-NoSlash name)
]

pub push_mangled-relative :
    (capacity : ℕ) (name s : List ℕ)
    → push_mangled capacity name s ≡ push_str capacity (relative name) s
unfolding push_mangled
push_mangled-relative capacity [] s = refl
push_mangled-relative capacity (c ∷ rest) s = elim (Bool-cases (is_root (c ∷ rest))) [
  | inl r ↦ rw r refl
  | inr r ↦ rw r (push_chars-mangled capacity c rest s)
]

-- The text grows by the mangled absolute name, in one piece, or the call fails where there is no room
-- for it: a `%` for the empty name and for a lone slash, and otherwise the name with `%` for each
-- slash, with a `%` in front where no slash is. What is added has no slash in it, so that it is one
-- part of the token's key; and a leading slash makes no difference.
pub push_mangled_absolute-absolute :
    (capacity : ℕ) (name s : List ℕ)
    → (push_mangled_absolute capacity name s ≡ push_str capacity (absolute name) s)
      × NoSlash (absolute name)
      × (starts_with_slash name ≡ false → absolute (b'/' ∷ name) ≡ absolute name)
unfolding push_mangled_absolute
push_mangled_absolute-absolute capacity [] s = (refl, absolute-NoSlash [], λ e. refl)
push_mangled_absolute-absolute capacity (c ∷ rest) s = (
  elim (Bool-cases (is_root (c ∷ rest))) [
    | inl r ↦ rw r refl
    | inr r ↦ elim (Bool-cases (c == b'/')) [
      | inl h ↦
          rw (r, h)
            (push_chars-mangled capacity c rest s
              ∙ ap (λ m. push_str capacity (m ∷ mangled rest) s) (is_slash c h))
      | inr h ↦
          rw (r, h)
            (push_str->>= capacity (b'%' ∷ []) (mangled (c ∷ rest)) s
                (push_chars capacity (c ∷ rest)) (push_chars-mangled capacity c rest)
              ∙ ap (λ m. push_str capacity (b'%' ∷ m ∷ mangled rest) s) (no_slash c h))
    ]
  ],
  absolute-NoSlash (c ∷ rest),
  no_slash_absolute c rest,
)
