-- ===== src/Qsort/Tests.antt =====
-- Runs of uclibc_qsort, and its theorems at concrete arrays.
use codelib.Base.{ℕ, ◌+◌, ◌-◌, ◌^◌, ◌≤◌, ◌<◌, ◌≡◌, refl, ◌↔◌, ◌⊎◌, List, [], ◌∷◌, arith, get_or}
use codelib.Base.Int.{pos, minus_one}
use codelib.Qsort.{
  Mem, Outcome, returned, assert_failed, out_of_fuel, block, swap_bytes, load_uint, uclibc_qsort,
  cmp_right, cmp_wrong,
}
use codelib.Qsort.Bytes.{item}
use codelib.Qsort.Reorder.{Reorders}
use codelib.Qsort.Order.{InOrder, IsOrder, sign, cmp_wrong_agrees}
use codelib.Qsort.Sorts.{uclibc_qsort_sorts, uclibc_qsort_asserts}

-- Three addresses of the table, and a byte behind them.
abbrev addresses : List ℕ
addresses = 74 ∷ 125 ∷ 127 ∷ 102 ∷ 8 ∷ 7 ∷ 198 ∷ 45 ∷ 4 ∷ 36 ∷ 66 ∷ 178 ∷ 9 ∷ []

abbrev memory : Mem
memory i = get_or addresses i 0

abbrev bytes_of : Outcome → ℕ → List ℕ
bytes_of (returned m) n = block m 0 n
bytes_of assert_failed n = []
bytes_of out_of_fuel n = []

sorted_addresses :
    bytes_of (uclibc_qsort cmp_right 3 4 memory) 13
    ≡ 8 ∷ 7 ∷ 198 ∷ 45 ∷ 74 ∷ 125 ∷ 127 ∷ 102 ∷ 4 ∷ 36 ∷ 66 ∷ 178 ∷ 9 ∷ []
unfolding uclibc_qsort block cmp_right swap_bytes
sorted_addresses = refl

-- Three numbers of which `cmp_wrong` takes each to be below the next, round in a circle: the
-- largest stays in front.
abbrev circle : List ℕ
circle = 0 ∷ 0 ∷ 0 ∷ 192 ∷ 0 ∷ 0 ∷ 0 ∷ 0 ∷ 0 ∷ 0 ∷ 0 ∷ 96 ∷ []

circle_missorted : bytes_of (uclibc_qsort cmp_wrong 3 4 (λ i. get_or circle i 0)) 12 ≡ circle
unfolding uclibc_qsort block cmp_wrong swap_bytes
circle_missorted = refl

uclibc_qsort_sorts_example :
    (m' : Mem) × (uclibc_qsort cmp_right 3 4 memory ≡ returned m')
    × Reorders 4 3 memory m'
    × (IsOrder cmp_right
        → (a b : ℕ) → a < b
        → b < 3
        → InOrder cmp_right (item 4 m' a) (item 4 m' b))
uclibc_qsort_sorts_example = uclibc_qsort_sorts cmp_right 4 3 memory (omega arith) (omega arith)

too_many_elements : uclibc_qsort cmp_right (2 ^ 63) 4 memory ≡ assert_failed
too_many_elements = uclibc_qsort_asserts cmp_right 4 (2 ^ 63) memory (omega arith) (omega arith)

abbrev low : List ℕ
low = 1 ∷ 0 ∷ 0 ∷ 0 ∷ []

abbrev high : List ℕ
high = 2 ∷ 0 ∷ 0 ∷ 128 ∷ []

cmp_wrong_agrees_example :
    ((sign (cmp_wrong low high) ≡ sign (cmp_right low high)) ↔ (
      (load_uint low ≤ load_uint high + (2 ^ 31 - 1)) × (load_uint high ≤ load_uint low + 2 ^ 31)))
    × (((load_uint low < load_uint high) × (cmp_right low high ≡ minus_one))
        ⊎ ((load_uint low ≡ load_uint high) × (cmp_right low high ≡ pos 0))
        ⊎ ((load_uint high < load_uint low) × (cmp_right low high ≡ pos 1)))
unfolding load_uint
cmp_wrong_agrees_example = cmp_wrong_agrees low high (omega arith) (omega arith)
