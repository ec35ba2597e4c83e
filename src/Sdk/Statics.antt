-- ===== src/Sdk/Statics.antt =====
-- The publishers and subscriptions of an application. They are `static` items that a node refers to,
-- so that two entries of a node may name the same one: a store under addresses.
use zenoh_ros2_nostd.Common.{
  ℕ, ◌≡◌, ◌≢◌, refl, ==_self, ne→==, ◌==◌, if◌then◌else◌, List, ◌∷◌, ◌++◌, [], length, ltb,
}

abbrev pub Store : Type 0 → Type 0
Store A = ℕ → A

abbrev pub update : {A : Type 0} → Store A → ℕ → A → Store A
update store i a j = if i == j then a else store j

pub update_same : {A : Type 0} (store : Store A) (i : ℕ) (a : A) → update store i a i ≡ a
update_same store i a = rw (==_self i) refl

pub update_other :
    {A : Type 0} (store : Store A) (i j : ℕ) (a : A) → i ≢ j → update store i a j ≡ store j
update_other store i j a h = rw (ne→== i j h) refl

-- `let _ = vec.push(x)` on a `heapless::Vec`: a full vector stays as it is.
abbrev pub push_within {ℓ} : {A : Type ℓ} → ℕ → List A → A → List A
push_within cap xs x = if ltb (length xs) cap then xs ++ (x ∷ []) else xs
