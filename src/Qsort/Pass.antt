-- ===== src/Qsort/Pass.antt =====
-- The loop over i of uclibc_qsort: one pass with one gap.
use native.Mathlib.Nat.{mul-le-mul_right, le_trans}
use codelib.Base.{
  ℕ, zero, suc, ◌+◌, ◌-◌, ◌*◌, ◌≤◌, ◌<◌, ◌≡◌, ◌∙◌, subst, some, arith, ltb, ltb→lt, lt→ltb,
  le→not_ltb, not_ltb→le, if◌then◌else◌, Bool-cases, inl, inr,
}
use codelib.Qsort.{Mem, Comp, size_max, add_size, sift, pass}
use codelib.Qsort.Bytes.{mul-lt-mul_room}
use codelib.Qsort.Reorder.{Reorders, Reorders-trans}
use codelib.Qsort.Order.{IsOrder}
use codelib.Qsort.Sift.{sift_lem}
use codelib.Qsort.Insert.{IsSorted, sift-IsSorted}

add_size-mul : (w r n : ℕ) → r < n → n * w ≤ size_max → add_size (r * w) w ≡ (r + 1) * w
add_size-mul w r n h fits = grind (arith, mul-lt-mul_room w r n h)

pub ltb-mul : (w a b : ℕ) → 0 < w → ltb (a * w) (b * w) ≡ ltb a b
ltb-mul w a b pos_w = elim (Bool-cases (ltb a b)) [
  | inl e ↦ rw e (lt→ltb (a * w) (b * w) (omega (arith, mul-lt-mul_room w a b (ltb→lt a b e))))
  | inr e ↦ rw e (le→not_ltb (a * w) (b * w) (mul-le-mul_right w (not_ltb→le a b e)))
]

module _ (comp : Comp) (w n : ℕ) where
  -- One round, over the indices of the elements.
  pass_round :
      (inner fuel g r : ℕ) (m m1 : Mem)
      → 0 < w
      → r < n
      → n * w ≤ size_max
      → sift comp w inner (g * w) (r * w) m ≡ some m1
      → pass comp w inner (suc fuel) (g * w) (n * w) (r * w) m ≡ (
          if ltb (r + 1) n
          then pass comp w inner fuel (g * w) (n * w) ((r + 1) * w) m1
          else some m1)
  unfolding pass
  pass_round inner fuel g r m m1 pos_w lt fits e =
      rw (e, pass, add_size-mul w r n lt fits, ltb-mul w (r + 1) n pos_w)

  -- What one element's insertion gives: the loop over j, and order where the gap is one.
  insert_lem :
      (inner g r : ℕ) (m : Mem)
      → 0 < w
      → 0 < g
      → g ≤ r
      → r < n
      → n * w ≤ size_max
      → r < inner
      → (m' : Mem) × (sift comp w inner (g * w) (r * w) m ≡ some m')
        × Reorders w n m m'
        × (IsOrder comp → g ≡ 1 → IsSorted comp w (r - 1) m → IsSorted comp w r m')
  insert_lem inner g r m pos_w pos_g le lt fits deep =
      let (m', e, moved) = sift_lem comp w n inner g r m pos_w pos_g le lt fits deep in
      (
        m',
        e,
        moved,
        λ ord one sorted.
            sift-IsSorted comp w ord inner r r m pos_w (omega arith) (omega arith)
              (le_trans (mul-le-mul_right w (omega arith)) fits)
              (record {
                others = λ a b lt' le' na nb. sorted a b lt' (omega arith);
                behind = λ b lt' le'. absurd (omega arith);
              })
              (subst (λ k. sift comp w inner (k * w) (r * w) m ≡ some m') one e),
      )

  -- A pass ends, and only moves elements about. With a gap of one element and the elements before
  -- r in order, it leaves all of them in order.
  pub pass_lem :
      (inner fuel g r : ℕ) (m : Mem)
      → 0 < w
      → 0 < g
      → g ≤ r
      → r < n
      → n * w ≤ size_max
      → n ≤ inner
      → n ≤ r + fuel
      → (m' : Mem) × (pass comp w inner fuel (g * w) (n * w) (r * w) m ≡ some m')
        × Reorders w n m m'
        × (IsOrder comp → g ≡ 1 → IsSorted comp w (r - 1) m → IsSorted comp w (n - 1) m')
  pass_lem inner zero g r m pos_w pos_g le lt fits deep enough = absurd (omega arith)
  pass_lem inner (suc fuel) g r m pos_w pos_g le lt fits deep enough =
      let (m1, e1, moved1, sorted1) = insert_lem inner g r m pos_w pos_g le lt fits (omega arith) in
      let round = pass_round inner fuel g r m m1 pos_w lt fits e1 in
      elim (Bool-cases (ltb (r + 1) n)) [
        | inl more ↦
            let (m2, e2, moved2, sorted2) =
              pass_lem inner fuel g (r + 1) m1 pos_w pos_g (omega arith) (ltb→lt _ _ more) fits deep
                (omega arith) in
            (
              m2,
              round ∙ rw more e2,
              Reorders-trans moved1 moved2,
              λ ord one sorted.
                  sorted2 ord one
                    (subst (λ k. IsSorted comp w k m1) (omega arith) (sorted1 ord one sorted)),
            )
        | inr last ↦ (
          m1,
          round ∙ rw last,
          moved1,
          λ ord one sorted.
              subst (λ k. IsSorted comp w k m1) (omega (arith, not_ltb→le _ _ last))
                (sorted1 ord one sorted),
        )
      ]
