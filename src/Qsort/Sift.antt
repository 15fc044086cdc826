-- ===== src/Qsort/Sift.antt =====
-- The loop over j of uclibc_qsort.
use native.Mathlib.Nat.{mul-le-mul_right, add-mul}
use codelib.Base.{
  ℕ, zero, suc, ◌+◌, ◌-◌, ◌*◌, ◌≤◌, ◌<◌, ◌≡◌, ◌∙◌, sym, ap, some, arith, leb, le→leb, leb→le,
  lt→not_leb, not_leb→lt, if◌then◌else◌, Bool-cases, inl, inr,
}
use codelib.Qsort.{Mem, Comp, le_zero, size_max, sub_size, swap_bytes, sift}
use codelib.Qsort.Bytes.{item, mul-lt-mul_room}
use codelib.Qsort.Reorder.{Reorders, Reorders-refl, Reorders-trans, swap-Reorders}

-- Offsets of whole elements are subtracted and compared as their indices are.
pub sub_size-mul : (w r g : ℕ) → g ≤ r → r * w ≤ size_max → sub_size (r * w) (g * w) ≡ (r - g) * w
sub_size-mul w r g h fits = grind (arith, mul-le-mul_right w h)

pub leb-mul : (w a b : ℕ) → 0 < w → leb (a * w) (b * w) ≡ leb a b
leb-mul w a b pos_w = elim (Bool-cases (leb a b)) [
  | inl e ↦ rw e (le→leb (a * w) (b * w) (mul-le-mul_right w (leb→le a b e)))
  | inr e ↦
      rw e (lt→not_leb (a * w) (b * w) (omega (arith, mul-lt-mul_room w b a (not_leb→lt a b e))))
]

module _ (comp : Comp) (w : ℕ) where
  -- One round, over the indices of the elements.
  pub sift_round :
      (fuel g r : ℕ) (m : Mem)
      → 0 < w
      → g ≤ r
      → r * w ≤ size_max
      → sift comp w (suc fuel) (g * w) (r * w) m ≡ (
          if le_zero (comp (item w m (r - g)) (item w m r))
          then some m
          else if leb g (r - g)
          then sift comp w fuel (g * w) ((r - g) * w) (swap_bytes w ((r - g) * w) (r * w) m)
          else some (swap_bytes w ((r - g) * w) (r * w) m))
  unfolding sift
  sift_round fuel g r m pos_w h fits =
      rw (sub_size-mul w r g h fits, back, leb-mul w g (r - g) pos_w)
    where
      back : (r - g) * w + g * w ≡ r * w
      back = sym (add-mul (r - g) g w) ∙ ap (λ t. t * w) (omega arith)

  -- The loop ends within r + 1 rounds, and only moves elements about.
  pub sift_lem :
      (n fuel g r : ℕ) (m : Mem)
      → 0 < w
      → 0 < g
      → g ≤ r
      → r < n
      → n * w ≤ size_max
      → r < fuel
      → (m' : Mem) × (sift comp w fuel (g * w) (r * w) m ≡ some m') × Reorders w n m m'
  sift_lem n zero g r m pos_w pos_g h lt fits enough = absurd (omega arith)
  sift_lem n (suc fuel) g r m pos_w pos_g h lt fits enough =
      elim (Bool-cases (le_zero (comp (item w m q) (item w m r)))) [
        | inl stop ↦ (m, sift_round fuel g r m pos_w h small ∙ rw stop, Reorders-refl m)
        | inr go ↦ elim (Bool-cases (leb g q)) [
          | inr last ↦ (
            swap,
            sift_round fuel g r m pos_w h small ∙ rw (go, last),
            swap-Reorders w n q r m q_lt lt,
          )
          | inl more ↦
              let rest =
                sift_lem n fuel g q swap pos_w pos_g (leb→le g q more) (omega arith) fits
                  (omega arith) in
              (
                rest.0,
                sift_round fuel g r m pos_w h small ∙ rw (go, more) rest.1,
                Reorders-trans (swap-Reorders w n q r m q_lt lt) rest.2,
              )
        ]
      ]
    where
      q : ℕ
      q = r - g

      q_lt : q < r
      q_lt = omega arith

      small : r * w ≤ size_max
      small = omega (arith, mul-lt-mul_room w r n lt)

      swap : Mem
      swap = swap_bytes w (q * w) (r * w) m
