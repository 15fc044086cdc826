-- ===== src/Qsort.antt =====
-- c/cl_qsort.c: uclibc_qsort over the bytes of memory, and the comparison functions.
pub mod Bytes
pub mod Reorder
pub mod Order
pub mod Sift
pub mod Insert
pub mod Pass
pub mod Sorts
pub mod Main
mod Tests
use codelib.Base.{
  ℕ, zero, suc, ◌+◌, ◌-◌, ◌*◌, ◌/◌, ◌%◌, ◌^◌, Bool, true, false, ◌&&◌, Option, none, some, List, [],
  ◌∷◌, ltb, leb, ◌==◌, if◌then◌else◌,
}
use codelib.Base.Int.{ℤ, pos, negsuc, to_int}

-- The byte at each offset from `base`.
abbrev pub Mem : Type 0
Mem = ℕ → ℕ

unfoldable pub store : Mem → ℕ → ℕ → Mem
store m p v q = if q == p then v else m q

-- The k bytes from an offset on.
unfoldable pub block : Mem → ℕ → ℕ → List ℕ
block m p zero = []
block m p (suc k) = m p ∷ block m (p + 1) k

-- A comparison function sees the bytes of two elements.
abbrev pub Comp : Type 0
Comp = List ℕ → List ℕ → ℤ

-- `x <= 0`
abbrev pub le_zero : ℤ → Bool
le_zero (pos n) = n == 0
le_zero (negsuc n) = true

abbrev pub size_max : ℕ
size_max = 2 ^ 64 - 1

-- Arithmetic on `size_t`.
abbrev pub add_size : ℕ → ℕ → ℕ
add_size a b = (a + b) % 2 ^ 64

abbrev pub sub_size : ℕ → ℕ → ℕ
sub_size a b = (a + 2 ^ 64 - b) % 2 ^ 64

abbrev pub mul_size : ℕ → ℕ → ℕ
mul_size a b = (a * b) % 2 ^ 64

-- `k = width; do { tmp = *a; *a++ = *b; *b++ = tmp; } while (--k);`
unfoldable pub swap_bytes : ℕ → ℕ → ℕ → Mem → Mem
unfolding store
swap_bytes zero a b m = m
swap_bytes (suc k) a b m = swap_bytes k (a + 1) (b + 1) (store (store m a (m b)) b (m a))

module _ (comp : Comp) (width : ℕ) where
  -- The loop over j. `none` is a loop that has not ended on its fuel, here and below.
  unfoldable pub sift : ℕ → ℕ → ℕ → Mem → Option Mem
  sift zero wgap j m = none
  sift (suc fuel) wgap j m =
      let a = sub_size j wgap in
      let b = a + wgap in
      let swapped = swap_bytes width a b m in
      let rest = sift fuel wgap a swapped in
      if le_zero (comp (block m a width) (block m b width))
      then some m
      else if leb wgap a
      then rest
      else some swapped

  -- The loop over i, with its own fuel and that of the loop over j.
  unfoldable pub pass : ℕ → ℕ → ℕ → ℕ → ℕ → Mem → Option Mem
  unfolding sift
  pass inner zero wgap nel i m = none
  pass inner (suc fuel) wgap nel i m = elim (sift inner wgap i m) [
    | none ↦ none
    | some m' ↦
        let i' = add_size i width in
        let rest = pass inner fuel wgap nel i' m' in if ltb i' nel then rest else some m'
  ]

  -- The loop over the gaps.
  unfoldable pub passes : ℕ → ℕ → ℕ → ℕ → Mem → Option Mem
  unfolding pass
  passes inner zero wgap nel m = none
  passes inner (suc fuel) wgap nel m = elim (pass inner inner wgap nel wgap m) [
    | none ↦ none
    | some m' ↦
        let wgap' = sub_size wgap width / 3 in
        let rest = passes inner fuel wgap' nel m' in if wgap' == 0 then some m' else rest
  ]

-- `do { wgap = 3 * wgap + 1; } while (wgap < (nel-1)/3);`
unfoldable pub first_gap : ℕ → ℕ → ℕ → Option ℕ
first_gap zero wgap nel = none
first_gap (suc fuel) wgap nel =
    let wgap' = add_size (mul_size 3 wgap) 1 in
    let rest = first_gap fuel wgap' nel in
    if ltb wgap' (sub_size nel 1 / 3) then rest else some wgap'

pub data Outcome : Type 0 where
  returned : Mem → Outcome
  assert_failed : Outcome
  out_of_fuel : Outcome

abbrev pub of_option : Option Mem → Outcome
of_option none = out_of_fuel
of_option (some m) = returned m

-- Each loop is given nel + 1 rounds.
unfoldable pub uclibc_qsort : Comp → ℕ → ℕ → Mem → Outcome
unfolding first_gap passes
uclibc_qsort comp nel width m =
    if ltb 1 nel && ltb 0 width
    then if leb nel (size_max / width)
      then elim (first_gap (nel + 1) 0 nel) [
        | none ↦ out_of_fuel
        | some wgap ↦
            of_option
              (passes comp width (nel + 1) (nel + 1) (mul_size wgap width) (mul_size nel width) m)
      ]
      else assert_failed
    else returned m

-- `*(unsigned int *)p`, on a little-endian machine.
unfoldable pub load_uint : List ℕ → ℕ
load_uint [] = 0
load_uint (b ∷ bs) = b + 256 * load_uint bs

-- `cmp` where WRONG_CMP is set: the difference of two `unsigned int` as an `int`.
unfoldable pub cmp_wrong : Comp
unfolding load_uint
cmp_wrong a b = to_int ((load_uint a + 2 ^ 32 - load_uint b) % 2 ^ 32)

-- `cmp` where it is not.
unfoldable pub cmp_right : Comp
unfolding load_uint
cmp_right a b =
    if ltb (load_uint b) (load_uint a)
    then pos 1
    else if load_uint a == load_uint b
    then pos 0
    else negsuc 0
