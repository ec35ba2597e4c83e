-- ===== src/Transport/Link.antt =====
-- src/transport/link.rs: the transport under a session, any type with the `Read` and `Write` of
-- embedded-io-async. What it does is not in this repository: it is a parameter.
use zenoh_ros2_nostd.Common.{
  ℕ, ◌≤◌, ◌≡◌, refl, ap, List, ◌++◌, Bool, true, Option, some, length, take, drop, Outcome, ok, err,
  panic,
}

-- `write_all`, `flush` and `read_exact`, each with whether it succeeded and the link after it.
pub record Link : Type 1 where
  pub State : Type 0
  pub write_all : List ℕ → State → Bool × State
  pub flush : State → Bool × State
  pub read_exact : ℕ → State → Option (List ℕ) × State

-- What the documentation of these calls promises, in terms of the bytes sent so far and of those
-- that are there to be read: a write that succeeds sends the bytes, a flush sends no more, and a
-- read takes the next bytes if there are enough. No side looks at the other.
pub record Promises (link : Link) : Type 1 where
  pub sent : link.State → List ℕ
  pub input : link.State → List ℕ
  pub write_all-sent :
      (bytes : List ℕ) (l : link.State)
      → (link.write_all bytes l).0 ≡ true
      → sent (link.write_all bytes l).1 ≡ sent l ++ bytes
  pub write_all-input :
      (bytes : List ℕ) (l : link.State) → input (link.write_all bytes l).1 ≡ input l
  pub flush-sent : (l : link.State) → sent (link.flush l).1 ≡ sent l
  pub flush-input : (l : link.State) → input (link.flush l).1 ≡ input l
  pub read_exact-some :
      (n : ℕ) (l : link.State)
      → n ≤ length (input l)
      → (link.read_exact n l).0 ≡ some (take n (input l))
  pub read_exact-input :
      (n : ℕ) (l : link.State)
      → n ≤ length (input l)
      → input (link.read_exact n l).1 ≡ drop n (input l)
  pub read_exact-sent : (n : ℕ) (l : link.State) → sent (link.read_exact n l).1 ≡ sent l

-- A call that works on some state: what it ends in, and the state after it.
abbrev pub Io : Type 0 → Type 0 → Type 0 → Type 0
Io S E A = S → Outcome E A × S

abbrev pub bind_outcome : {S E A B : Type 0} → Outcome E A → S → (A → Io S E B) → Outcome E B × S
bind_outcome (ok a) s f = f a s
bind_outcome (err e) s f = (err e, s)
bind_outcome panic s f = (panic, s)

infixl 5 ◌>>=◌ ◌>>◌
abbrev pub ◌>>=◌ : {S E A B : Type 0} → Io S E A → (A → Io S E B) → Io S E B
◌>>=◌ m f s = bind_outcome (m s).0 (m s).1 f

abbrev pub ◌>>◌ : {S E B : Type 0} → Io S E (Unit {0}) → Io S E B → Io S E B
m >> k = m >>= λ u. k

-- A value that needs no state.
abbrev pub pure : {S E A : Type 0} → Outcome E A → Io S E A
pure o s = (o, s)

-- A chain that succeeds ran its first part to a value, and went on from there.
pub >>=-ran :
    {S E A B : Type 0} (m : Io S E A) (f : A → Io S E B) (s : S) {b : B}
    → ((m >>= f) s).0 ≡ ok b
    → (a : A) × ((m s).0 ≡ ok a) × ((f a (m s).1).0 ≡ ok b) × ((m >>= f) s ≡ f a (m s).1)
>>=-ran {S} {E} {A} {B} m f s {b} = go (m s).0
  where
    go :
        (o : Outcome E A)
        → (bind_outcome o (m s).1 f).0 ≡ ok b
        → (a : A) × (o ≡ ok a) × ((f a (m s).1).0 ≡ ok b) × (bind_outcome o (m s).1 f ≡ f a (m s).1)
    go (ok a) h = (a, refl, h, refl)
    go (err e) h = cc
    go panic h = cc

-- A chain whose first part is known to succeed.
pub >>=-from_ok :
    {S E A B : Type 0} (m : Io S E A) (f : A → Io S E B) (s : S) {a : A}
    → (m s).0 ≡ ok a
    → (m >>= f) s ≡ f a (m s).1
>>=-from_ok m f s e = ap (λ o. bind_outcome o (m s).1 f) e
