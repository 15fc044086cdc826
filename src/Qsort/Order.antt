-- ===== src/Qsort/Order.antt =====
-- The contract of a comparison function, and what the comparison of cl_qsort.c keeps of it.
use codelib.Base.{zero, suc, ◌⊎◌, ℕ, ◌+◌, ◌-◌, ◌^◌, ◌≤◌, ◌<◌, ◌≡◌, true, false, List, arith, ◌↔◌}
use codelib.Base.Int.{ℤ, pos, negsuc, minus_one}
use codelib.Qsort.{Comp, le_zero, cmp_right, cmp_wrong, load_uint}

-- `comp(a, b) <= 0`
abbrev pub InOrder : Comp → List ℕ → List ℕ → Type 0
InOrder comp a b = le_zero (comp a b) ≡ true

-- The comparison is a total preorder.
pub record IsOrder (comp : Comp) : Type 0 where
  pub total : (a b : List ℕ) → le_zero (comp a b) ≡ false → InOrder comp b a
  pub transitive : (a b c : List ℕ) → InOrder comp a b → InOrder comp b c → InOrder comp a c

pub cmp_right-le : (a b : List ℕ) → InOrder cmp_right a b ↔ (load_uint a ≤ load_uint b)
unfolding cmp_right
cmp_right-le a b = ground arith

-- The comparison that is switched off compares unsigned integers, and so is an order.
pub cmp_right-IsOrder : IsOrder cmp_right
cmp_right-IsOrder = record {
  total = λ a b h. ground (arith, cmp_right-le a b, cmp_right-le b a);
  transitive = λ a b c h k. ground (arith, cmp_right-le a b, cmp_right-le b c, cmp_right-le a c);
}

-- All that a sort or a search reads of a result.
abbrev pub sign : ℤ → ℤ
sign (pos zero) = pos 0
sign (pos (suc n)) = pos 1
sign (negsuc n) = minus_one

-- For two 32-bit numbers the result of the comparison that is switched on has the sign of the other
-- one's, below 0, 0 or above it, exactly where the numbers are less than half of the range apart, or
-- the second is the greater one by just half of it. The other one is -1, 0 or 1 as the first number
-- is less than the second, the same or greater.
pub cmp_wrong_agrees :
    (a b : List ℕ)
    → load_uint a < 2 ^ 32
    → load_uint b < 2 ^ 32
    → ((sign (cmp_wrong a b) ≡ sign (cmp_right a b))
        ↔ ((load_uint a ≤ load_uint b + (2 ^ 31 - 1)) × (load_uint b ≤ load_uint a + 2 ^ 31)))
      × (((load_uint a < load_uint b) × (cmp_right a b ≡ minus_one))
          ⊎ ((load_uint a ≡ load_uint b) × (cmp_right a b ≡ pos 0))
          ⊎ ((load_uint b < load_uint a) × (cmp_right a b ≡ pos 1)))
unfolding cmp_wrong cmp_right
cmp_wrong_agrees a b ha hb = ground arith
