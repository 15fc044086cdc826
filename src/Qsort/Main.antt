-- ===== src/Qsort/Main.antt =====
-- The table and main of c/cl_qsort.c. What printf is given stands for what is printed.
pub mod Ascending
mod Tests
use codelib.Base.{
  ℕ, zero, suc, ◌*◌, ◌/◌, ◌%◌, Bool, true, false, Option, none, some, List, [], ◌∷◌, get_or,
  if◌then◌else◌,
}
use codelib.Qsort.{
  Mem, Comp, Outcome, returned, assert_failed, out_of_fuel, block, load_uint, uclibc_qsort,
  cmp_right, cmp_wrong,
}

abbrev pub chinadns : List (List ℕ)
chinadns =
    (74 ∷ 125 ∷ 127 ∷ 102 ∷ [])
    ∷ (74 ∷ 125 ∷ 155 ∷ 102 ∷ [])
    ∷ (74 ∷ 125 ∷ 39 ∷ 102 ∷ [])
    ∷ (74 ∷ 125 ∷ 39 ∷ 113 ∷ [])
    ∷ (209 ∷ 85 ∷ 229 ∷ 138 ∷ [])
    ∷ (128 ∷ 121 ∷ 126 ∷ 139 ∷ [])
    ∷ (159 ∷ 106 ∷ 121 ∷ 75 ∷ [])
    ∷ (169 ∷ 132 ∷ 13 ∷ 103 ∷ [])
    ∷ (192 ∷ 67 ∷ 198 ∷ 6 ∷ [])
    ∷ (202 ∷ 106 ∷ 1 ∷ 2 ∷ [])
    ∷ (202 ∷ 181 ∷ 7 ∷ 85 ∷ [])
    ∷ (203 ∷ 161 ∷ 230 ∷ 171 ∷ [])
    ∷ (203 ∷ 98 ∷ 7 ∷ 65 ∷ [])
    ∷ (207 ∷ 12 ∷ 88 ∷ 98 ∷ [])
    ∷ (208 ∷ 56 ∷ 31 ∷ 43 ∷ [])
    ∷ (209 ∷ 145 ∷ 54 ∷ 50 ∷ [])
    ∷ (209 ∷ 220 ∷ 30 ∷ 174 ∷ [])
    ∷ (209 ∷ 36 ∷ 73 ∷ 33 ∷ [])
    ∷ (211 ∷ 94 ∷ 66 ∷ 147 ∷ [])
    ∷ (213 ∷ 169 ∷ 251 ∷ 35 ∷ [])
    ∷ (216 ∷ 221 ∷ 188 ∷ 182 ∷ [])
    ∷ (216 ∷ 234 ∷ 179 ∷ 13 ∷ [])
    ∷ (243 ∷ 185 ∷ 187 ∷ 39 ∷ [])
    ∷ (37 ∷ 61 ∷ 54 ∷ 158 ∷ [])
    ∷ (4 ∷ 36 ∷ 66 ∷ 178 ∷ [])
    ∷ (46 ∷ 82 ∷ 174 ∷ 68 ∷ [])
    ∷ (59 ∷ 24 ∷ 3 ∷ 173 ∷ [])
    ∷ (64 ∷ 33 ∷ 88 ∷ 161 ∷ [])
    ∷ (64 ∷ 33 ∷ 99 ∷ 47 ∷ [])
    ∷ (64 ∷ 66 ∷ 163 ∷ 251 ∷ [])
    ∷ (65 ∷ 104 ∷ 202 ∷ 252 ∷ [])
    ∷ (65 ∷ 160 ∷ 219 ∷ 113 ∷ [])
    ∷ (66 ∷ 45 ∷ 252 ∷ 237 ∷ [])
    ∷ (72 ∷ 14 ∷ 205 ∷ 104 ∷ [])
    ∷ (72 ∷ 14 ∷ 205 ∷ 99 ∷ [])
    ∷ (78 ∷ 16 ∷ 49 ∷ 15 ∷ [])
    ∷ (8 ∷ 7 ∷ 198 ∷ 45 ∷ [])
    ∷ (93 ∷ 46 ∷ 8 ∷ 89 ∷ [])
    ∷ []

-- The bytes of the table.
abbrev pub table : Mem
table p = get_or (get_or chinadns (p / 4) []) (p % 4) 0

abbrev pub target : List ℕ
target = 59 ∷ 24 ∷ 3 ∷ 173 ∷ []

-- The lines of n rows from the row i on: the number and the four bytes.
unfoldable pub print_rows : Mem → ℕ → ℕ → List (ℕ × List ℕ)
print_rows m zero i = []
print_rows m (suc n) i = (load_uint (block m (i * 4) 4), block m (i * 4) 4) ∷ print_rows m n (suc i)

pub data Printed : Type 0 where
  printed : List (ℕ × List ℕ) → Bool → Printed
  aborted : Printed
  never : Printed

abbrev pub is_found : Option ℕ → Bool
is_found none = false
is_found (some i) = true

-- The C library's qsort and bsearch, with the order of the arguments of uclibc_qsort and with an index
-- for the pointer that bsearch returns.
module _ (qsort : Comp → ℕ → ℕ → Mem → Outcome)
    (bsearch : Comp → List ℕ → ℕ → ℕ → Mem → Option ℕ) where
  unfoldable pub report : Comp → Outcome → Printed
  report cmp (returned m) = printed (print_rows m 38 0) (is_found (bsearch cmp target 38 4 m))
  report cmp assert_failed = aborted
  report cmp out_of_fuel = never

  -- Of whether GLIBC_QSORT and WRONG_CMP are set.
  unfoldable pub main : Bool → Bool → Printed
  main glibc_qsort wrong_cmp =
      let cmp = if wrong_cmp then cmp_wrong else cmp_right in
      report cmp (if glibc_qsort then qsort cmp 38 4 table else uclibc_qsort cmp 38 4 table)
