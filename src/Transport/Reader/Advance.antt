-- ===== src/Transport/Reader/Advance.antt =====
-- A step of a decoder moves `pos` forward and inside the slice, and what is left is the slice
-- from there on.
use zenoh_ros2_nostd.Common.{
  ℕ, suc, ◌+◌, ◌-◌, ◌≤◌, ◌≡◌, ap, ◌∙◌, List, [], ◌∷◌, Bool, true, false, length, length-drop, take,
  drop, drop-drop, arith, ok, >>=-eq-ok, ◌>>=◌,
}
use zenoh_ros2_nostd.Error.{Wire}
use zenoh_ros2_nostd.Transport.Reader.{Step, read_byte, read_with, skip_bytes, read_when}

pub record Advances (pos : ℕ) (rest : List ℕ) (pos' : ℕ) (rest' : List ℕ) : Type 0 where
  pub forward : pos ≤ pos'
  pub inside : pos' ≤ pos + length rest
  pub left : rest' ≡ drop (pos' - pos) rest

pub Advances-by :
    (pos n : ℕ) (rest : List ℕ) → n ≤ length rest → Advances pos rest (pos + n) (drop n rest)
Advances-by pos n rest h = record {
  forward = omega arith;
  inside = omega arith;
  left = ap (λ k. drop k rest) {x = n} {y = pos + n - pos} (omega arith);
}

-- A byte, and `n` bytes behind it.
pub Advances-first :
    (pos b n : ℕ) (rest : List ℕ)
    → n ≤ length rest
    → Advances pos (b ∷ rest) (pos + 1 + n) (drop n rest)
Advances-first pos b n rest h = record {
  forward = omega arith;
  inside = omega arith;
  left = ap (λ k. drop k (b ∷ rest)) {x = suc n} {y = pos + 1 + n - pos} (omega arith);
}

pub Advances-refl : (pos : ℕ) (rest : List ℕ) → Advances pos rest pos rest
Advances-refl pos rest = record {
  forward = omega arith;
  inside = omega arith;
  left = ap (λ k. drop k rest) {x = 0} {y = pos - pos} (omega arith);
}

pub Advances-trans :
    {p q s : ℕ} {a b c : List ℕ} → Advances p a q b → Advances q b s c → Advances p a s c
Advances-trans {p} {q} {s} {a} {b} {c} f g = record {
  forward = omega (arith, f.forward, g.forward);
  inside = omega (arith, f.forward, f.inside, g.inside, ap length f.left, length-drop (q - p) a);
  left =
      g.left
      ∙ ap (drop (s - q)) f.left
      ∙ drop-drop (q - p) (s - q) a
      ∙ ap (λ k. drop k a) {x = q - p + (s - q)} {y = s - p} (omega (arith, f.forward, g.forward));
}

-- What holds of a step on every input.
abbrev pub IsForward : {A : Type 0} → Step A → Type 0
IsForward {A} f =
    (pos : ℕ) (rest : List ℕ) (a : A) (pos' : ℕ) (rest' : List ℕ)
    → f pos rest ≡ ok (a, pos', rest')
    → Advances pos rest pos' rest'

pub read_byte-IsForward : IsForward read_byte
unfolding read_byte
read_byte-IsForward pos [] a pos' rest' e = cc
read_byte-IsForward pos (b ∷ rest) a pos' rest' e =
    ground (arith, (Advances-by pos 1 (b ∷ rest) (omega arith)).left)

pub read_with-IsForward :
    {A : Type 0} (f : List ℕ → Wire (A × ℕ))
    → ((buf : List ℕ) (a : A) (n : ℕ) → f buf ≡ ok (a, n) → n ≤ length buf)
    → IsForward (read_with f)
unfolding read_with
read_with-IsForward f small pos rest a pos' rest' e =
    let ((v, n), ran, moved) = >>=-eq-ok (f rest) _ e in
    ground (arith, small rest v n ran, Advances-by pos n rest (small rest v n ran), moved)

pub skip_bytes-IsForward : (n : ℕ) → IsForward (skip_bytes n)
unfolding skip_bytes
skip_bytes-IsForward n pos rest a pos' rest' e =
    ground (arith, (λ (h : n ≤ length rest). Advances-by pos n rest h))

pub read_when-IsForward :
    {A : Type 0} (c : Bool) (absent : A) (f : Step A)
    → IsForward f
    → IsForward (read_when c absent f)
unfolding read_when
read_when-IsForward true absent f h pos rest a pos' rest' e = h pos rest a pos' rest' e
read_when-IsForward false absent f h pos rest a pos' rest' e =
    ground (arith, Advances-refl pos rest)

-- Two steps in a row.
pub both-IsForward :
    {A B : Type 0} (f : Step A) (g : A → Step B)
    → IsForward f
    → ((a : A) → IsForward (g a))
    → IsForward (λ pos rest. f pos rest >>= λ (a, pos', rest'). g a pos' rest')
both-IsForward f g hf hg pos rest b pos' rest' e =
    let ((a, p, r), first, second) = >>=-eq-ok (f pos rest) _ e in
    Advances-trans (hf pos rest a p r first) (hg a p r b pos' rest' second)

-- A step that ends with a field of bytes, just before the new position.
pub record Cuts (pos : ℕ) (rest bytes : List ℕ) (pos' : ℕ) (rest' : List ℕ) : Type 0 where
  pub moves : Advances pos rest pos' rest'
  pub fits : pos + length bytes ≤ pos'
  pub field : bytes ≡ take (length bytes) (drop (pos' - pos - length bytes) rest)

pub Cuts-after :
    {p q s : ℕ} {a b c bytes : List ℕ} → Advances p a q b → Cuts q b bytes s c → Cuts p a bytes s c
Cuts-after {p} {q} {s} {a} {b} {c} {bytes} f g = record {
  moves = Advances-trans f g.moves;
  fits = omega (arith, f.forward, g.fits);
  field =
      g.field
      ∙ ap (λ t. take (length bytes) (drop (s - q - length bytes) t)) f.left
      ∙ ap (take (length bytes)) (drop-drop (q - p) (s - q - length bytes) a)
      ∙ ap (λ k. take (length bytes) (drop k a)) {x = q - p + (s - q - length bytes)}
          {y = s - p - length bytes} (omega (arith, f.forward, g.fits));
}

abbrev pub IsCut : Step (List ℕ) → Type 0
IsCut f =
    (pos : ℕ) (rest bytes : List ℕ) (pos' : ℕ) (rest' : List ℕ)
    → f pos rest ≡ ok (bytes, pos', rest')
    → Cuts pos rest bytes pos' rest'
