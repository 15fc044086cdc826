-- ===== src/Qsort/Main/Tests.antt =====
-- main of c/cl_qsort.c with uclibc_qsort for the C library's qsort and a linear search for its bsearch.
use codelib.Base.{ℕ, zero, suc, if◌then◌else◌, Option, none, some, List}
use codelib.Base.Int.{is_zero}
use codelib.Qsort.{Mem, Comp}
use codelib.Qsort.Bytes.{item}

-- The first of the n elements from the element i on that matches.
abbrev search_from : Comp → List ℕ → ℕ → ℕ → ℕ → Mem → Option ℕ
search_from comp key w zero i m = none
search_from comp key w (suc n) i m =
    let rest = search_from comp key w n (suc i) m in
    if is_zero (comp key (item w m i)) then some i else rest

abbrev search : Comp → List ℕ → ℕ → ℕ → Mem → Option ℕ
search comp key n w m = search_from comp key w n 0 m
