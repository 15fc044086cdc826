-- ===== src/Qsort/Sorts.antt =====
-- The loop over the gaps of c/cl_qsort.c, and uclibc_qsort as a whole.
use native.Mathlib.Nat.{mul-le-mul_right, mul-pos, zero-mul, le_trans, le-div_iff_mul-le}
use codelib.Base.{
  ℕ, zero, suc, ◌+◌, ◌-◌, ◌*◌, ◌/◌, ◌≤◌, ◌<◌, ◌≡◌, refl, ◌∙◌, subst, true, false, Option, some,
  List, [], arith, ltb, leb, ltb→lt, lt→ltb, leb→le, le→leb, not_ltb→le, ◌==◌, ◌&&◌, if◌then◌else◌,
  Bool-cases, inl, inr,
}
use codelib.Qsort.{
  Mem, Comp, block, le_zero, size_max, add_size, sub_size, mul_size, pass, passes, first_gap,
  uclibc_qsort, returned, assert_failed,
}
use codelib.Qsort.Bytes.{item, mul-lt-mul_room}
use codelib.Qsort.Reorder.{Reorders, Reorders-refl, Reorders-trans}
use codelib.Qsort.Order.{IsOrder, InOrder}
use codelib.Qsort.Insert.{IsSorted}
use codelib.Qsort.Pass.{pass_lem}

-- The gaps 1, 4, 13, …, as numbers of elements.
data IsGap : ℕ → Type 0 where
  one : {g : ℕ} → g ≡ 1 → IsGap g
  next : {g : ℕ} (h : ℕ) → g ≡ 3 * h + 1 → IsGap h → IsGap g

IsGap-pos : {g : ℕ} → IsGap g → 0 < g
IsGap-pos (one e) = omega arith
IsGap-pos (next h e gap) = omega arith

-- The gap that the passes go on with: the one that this came from.
next_gap : (w g h : ℕ) → 0 < w → g ≡ 3 * h + 1 → g * w ≤ size_max → sub_size (g * w) w / 3 ≡ h * w
next_gap w g h pos_w e fits = omega (arith, product)
  where
    product : g * w ≡ 3 * (h * w) + w
    product = rw e (omega arith)

module _ (comp : Comp) (w n inner : ℕ) (pos_w : 0 < w) (fits : n * w ≤ size_max)
    (deep : n ≤ inner) where
  abbrev Sorted : Mem → Option Mem → Type 0
  Sorted m r =
      (m' : Mem) × (r ≡ some m') × Reorders w n m m' × (IsOrder comp → IsSorted comp w (n - 1) m')

  -- One round: the pass, and the next gap.
  passes_round :
      (fuel g h : ℕ) (m m1 : Mem)
      → g ≡ 3 * h + 1
      → g < n
      → pass comp w inner inner (g * w) (n * w) (g * w) m ≡ some m1
      → passes comp w inner (suc fuel) (g * w) (n * w) m
        ≡ (if h * w == 0 then some m1 else passes comp w inner fuel (h * w) (n * w) m1)
  unfolding passes
  passes_round fuel g h m m1 e lt done =
      rw (done, passes, next_gap w g h pos_w e (le_trans (mul-le-mul_right w (omega arith)) fits))

  passes_lem :
      (fuel g : ℕ) (m : Mem)
      → IsGap g
      → g < n
      → g ≤ fuel
      → Sorted m (passes comp w inner fuel (g * w) (n * w) m)
  passes_lem zero g m gap lt enough = absurd (omega (arith, IsGap-pos gap))
  passes_lem (suc fuel) g m (one e) lt enough =
      let (m1, done, moved, sorted) =
        pass_lem comp w n inner inner g g m pos_w (omega arith) (omega arith) lt fits deep
          (omega arith) in
      (
        m1,
        passes_round fuel g 0 m m1 e lt done ∙ rw zero-mul,
        moved,
        λ ord. sorted ord e λ a b lt' le'. absurd (omega arith),
      )
  passes_lem (suc fuel) g m (next h e gap) lt enough =
      let (m1, done, moved, sorted) =
        pass_lem comp w n inner inner g g m pos_w (omega arith) (omega arith) lt fits deep
          (omega arith) in
      let (m2, rest, moved2, sorted2) = passes_lem fuel h m1 gap (omega arith) (omega arith) in
      let go : (h * w == 0) ≡ false = ground (arith, mul-pos (IsGap-pos gap) pos_w) in
      (m2, passes_round fuel g h m m1 e lt done ∙ rw go rest, Reorders-trans moved moved2, sorted2)

first_gap_lem :
    (fuel g n : ℕ)
    → n ≤ size_max
    → 3 * g + 1 < n
    → n < g + fuel
    → IsGap (3 * g + 1)
    → (h : ℕ) × (first_gap fuel g n ≡ some h) × IsGap h × (h < n)
unfolding first_gap
first_gap_lem zero g n fits lt enough gap = absurd (omega arith)
first_gap_lem (suc fuel) g n fits lt enough gap =
    elim (Bool-cases (ltb (3 * g + 1) ((n - 1) / 3))) [
      | inl more ↦
          let wide = ltb→lt _ _ more in
          let (h, e, gap', lt') =
            first_gap_lem fuel (3 * g + 1) n fits (omega arith) (omega arith)
              (next (3 * g + 1) refl gap) in
          (h, rw (same, top, more) e, gap', lt')
      | inr last ↦ (3 * g + 1, rw (same, top, last), gap, lt)
    ]
  where
    same : add_size (mul_size 3 g) 1 ≡ 3 * g + 1
    same = omega arith

    top : sub_size n 1 / 3 ≡ (n - 1) / 3
    top = omega arith

IsOrder-refl : {comp : Comp} (a : List ℕ) → IsOrder comp → InOrder comp a a
IsOrder-refl {comp} a ord = elim (Bool-cases (le_zero (comp a a))) [
  | inl e ↦ e
  | inr e ↦ ord.total a a e
]

-- The run of the function from the runs of its loops.
uclibc_qsort_run :
    (comp : Comp) (w n g : ℕ) (m m' : Mem)
    → 1 < n
    → 0 < w
    → n * w ≤ size_max
    → g < n
    → first_gap (n + 1) 0 n ≡ some g
    → passes comp w (n + 1) (n + 1) (g * w) (n * w) m ≡ some m'
    → uclibc_qsort comp n w m ≡ returned m'
unfolding uclibc_qsort
uclibc_qsort_run comp w n g m m' two pos_w fits lt found e =
    rw (big, allowed, found, uclibc_qsort, gap_size, full_size, e)
  where
    big : (ltb 1 n && ltb 0 w) ≡ true
    big = rw (lt→ltb 1 n two, lt→ltb 0 w pos_w)

    allowed : leb n (size_max / w) ≡ true
    allowed = le→leb _ _ ((le-div_iff_mul-le pos_w).1 fits)

    gap_size : mul_size g w ≡ g * w
    gap_size = omega (arith, mul-lt-mul_room w g n lt)

    full_size : mul_size n w ≡ n * w
    full_size = omega arith

-- With two elements or more, and a width.
sort_lem :
    (comp : Comp) (w n : ℕ) (m : Mem)
    → 1 < n
    → 0 < w
    → n * w ≤ size_max
    → n ≤ size_max
    → (m' : Mem) × (uclibc_qsort comp n w m ≡ returned m')
      × Reorders w n m m'
      × (IsOrder comp → IsSorted comp w (n - 1) m')
sort_lem comp w n m two pos_w fits small =
    let (g, found, gap, lt) =
      first_gap_lem (n + 1) 0 n small (omega arith) (omega arith) (one (omega arith)) in
    let (m', e, moved, sorted) =
      passes_lem comp w n (n + 1) pos_w fits (omega arith) (n + 1) g m gap lt (omega arith) in
    (m', uclibc_qsort_run comp w n g m m' two pos_w fits lt found e, moved, sorted)

-- `uclibc_qsort` returns, for every number of elements and every width whose product is a
-- `size_t`: its loops end on the fuel that they are given. It leaves the same elements, each as
-- often, and no byte behind them changed; where the comparison is a total preorder they are in
-- order.
pub uclibc_qsort_sorts :
    (comp : Comp) (w n : ℕ) (m : Mem)
    → n ≤ size_max
    → n * w ≤ size_max
    → (m' : Mem) × (uclibc_qsort comp n w m ≡ returned m')
      × Reorders w n m m'
      × (IsOrder comp → (a b : ℕ) → a < b → b < n → InOrder comp (item w m' a) (item w m' b))
unfolding uclibc_qsort block
uclibc_qsort_sorts comp w n m small fits = elim (Bool-cases (ltb 1 n && ltb 0 w)) [
  | inl big ↦
      let (m', e, moved, sorted) = sort_lem comp w n m (ground arith) (ground arith) fits small in
      (m', e, moved, λ ord a b lt le. sorted ord a b lt (omega arith))
  | inr trivial ↦ (
    m,
    rw trivial,
    Reorders-refl m,
    λ ord a b lt le.
        let no_width : 0 ≡ w = ground arith in
        subst (λ k. InOrder comp (item k m a) (item k m b)) no_width (IsOrder-refl [] ord),
  )
]

-- Where the width is a `size_t`, and the number of elements times the width is none, the assertion
-- fails.
pub uclibc_qsort_asserts :
    (comp : Comp) (w n : ℕ) (m : Mem)
    → w ≤ size_max
    → size_max < n * w
    → uclibc_qsort comp n w m ≡ assert_failed
unfolding uclibc_qsort
uclibc_qsort_asserts comp w n m small_w over = rw (big, refused)
  where
    pos_w : 0 < w
    pos_w = elim (Bool-cases (ltb 0 w)) [
      | inl e ↦ ltb→lt 0 w e
      | inr e ↦ absurd (omega (arith, over_nil (omega (arith, not_ltb→le 0 w e))))
    ]
      where
        over_nil : w ≡ 0 → size_max < n * 0
        over_nil e = subst (λ k. size_max < n * k) e over

    two : 1 < n
    two = grind arith

    big : (ltb 1 n && ltb 0 w) ≡ true
    big = rw (lt→ltb 1 n two, lt→ltb 0 w pos_w)

    refused : leb n (size_max / w) ≡ false
    refused = elim (Bool-cases (leb n (size_max / w))) [
      | inl e ↦ absurd (omega (arith, (le-div_iff_mul-le pos_w).0 (leb→le _ _ e)))
      | inr e ↦ e
    ]
