-- ===== src/Qsort/Bytes.antt =====
-- The byte-wise exchange, byte by byte and element by element.
use native.Mathlib.Nat.{mul-le-mul_right}
use mathlib.Core.Path.{ap₂}
use codelib.Base.{
  ℕ, zero, suc, ◌+◌, ◌-◌, ◌*◌, ◌≤◌, ◌<◌, ◌≡◌, refl, ◌∙◌, ap, List, ◌∷◌, arith, ltb, leb, ◌==◌, ◌&&◌,
  if◌then◌else◌, inl, inr, nat_cases,
}
use codelib.Qsort.{Mem, store, block, swap_bytes}

-- Where the byte at x comes from when k bytes from a and from b are exchanged.
abbrev pub exchanged : ℕ → ℕ → ℕ → ℕ → ℕ
exchanged k a b x =
    if leb a x && ltb x (a + k)
    then x - a + b
    else if leb b x && ltb x (b + k)
    then x - b + a
    else x

swap_bytes-exchanged :
    (k a b : ℕ) (m : Mem) (x : ℕ) → a + k ≤ b → swap_bytes k a b m x ≡ m (exchanged k a b x)
unfolding swap_bytes store
swap_bytes-exchanged zero a b m x h = ap m (ground arith)
swap_bytes-exchanged (suc k) a b m x h =
    swap_bytes-exchanged k (a + 1) (b + 1) (store (store m a (m b)) b (m a)) x (omega arith)
    ∙ ground arith

block-ext :
    (k p q : ℕ) (m m' : Mem)
    → ((t : ℕ) → t < k → m (p + t) ≡ m' (q + t))
    → block m p k ≡ block m' q k
unfolding block
block-ext zero p q m m' h = refl
block-ext (suc k) p q m m' h =
    ap₂ ◌∷◌ (ground (arith, h 0 (omega arith)))
      (block-ext k (p + 1) (q + 1) m m' λ t lt. ground (arith, h (t + 1) (omega arith)))

-- The element at an index, for elements of w bytes.
abbrev pub item : ℕ → Mem → ℕ → List ℕ
item w m i = block m (i * w) w

-- The index that an element has after an exchange came from.
abbrev pub swapped : ℕ → ℕ → ℕ → ℕ
swapped i j r = if r == i then j else if r == j then i else r

pub mul-lt-mul_room : (w i j : ℕ) → i < j → i * w + w ≤ j * w
mul-lt-mul_room w i j h = grind (arith, mul-le-mul_right w h)

exchanged-swapped :
    (w i j r t : ℕ)
    → i < j
    → t < w
    → exchanged w (i * w) (j * w) (r * w + t) ≡ swapped i j r * w + t
exchanged-swapped w i j r t h lt = elim (nat_cases r i) [
  | inl e ↦ ground arith
  | inr (inl below) ↦ ground (arith, mul-lt-mul_room w r i below, mul-lt-mul_room w i j h)
  | inr (inr above) ↦ elim (nat_cases r j) [
    | inl e ↦ ground (arith, mul-lt-mul_room w i j h)
    | inr (inl below) ↦ ground (arith, mul-lt-mul_room w i r above, mul-lt-mul_room w r j below)
    | inr (inr far) ↦ ground (arith, mul-lt-mul_room w i r above, mul-lt-mul_room w j r far)
  ]
]

-- The exchange of two elements exchanges them whole, and no other element changes.
pub item-swap_bytes :
    (w i j r : ℕ) (m : Mem)
    → i < j
    → item w (swap_bytes w (i * w) (j * w) m) r ≡ item w m (swapped i j r)
item-swap_bytes w i j r m h = block-ext w (r * w) (swapped i j r * w) _ m λ t lt.
    swap_bytes-exchanged w (i * w) (j * w) m (r * w + t) (mul-lt-mul_room w i j h)
    ∙ ap m (exchanged-swapped w i j r t h lt)

-- Bytes behind both elements stay.
pub swap_bytes-behind :
    (w i j n x : ℕ) (m : Mem) → i < j → j < n → n * w ≤ x → swap_bytes w (i * w) (j * w) m x ≡ m x
swap_bytes-behind w i j n x m h k out =
    swap_bytes-exchanged w (i * w) (j * w) m x (mul-lt-mul_room w i j h)
    ∙ ap m (ground (arith, mul-lt-mul_room w i j h, mul-lt-mul_room w j n k))
