-- ===== src/Qsort/Main/Ascending.antt =====
-- What main of c/cl_qsort.c prints where WRONG_CMP is not set.
use codelib.Base.{ℕ, ◌*◌, ◌≤◌, ◌<◌, ◌≡◌, Option, some, List}
use codelib.Base.Int.{pos}
use codelib.Qsort.{Mem, Comp, Outcome, returned, size_max}
use codelib.Qsort.Bytes.{item}
use codelib.Qsort.Reorder.{Reorders}
use codelib.Qsort.Order.{InOrder, IsOrder}

-- The items are in order.
abbrev pub IsAscending : Comp → ℕ → ℕ → Mem → Type 0
IsAscending comp w n m = (a b : ℕ) → a < b → b < n → InOrder comp (item w m a) (item w m b)

-- What the C standard says of qsort.
pub record SortsAll (sort : Comp → ℕ → ℕ → Mem → Outcome) : Type 0 where
  pub sorts :
      (comp : Comp) (w n : ℕ) (m : Mem)
      → n ≤ size_max
      → n * w ≤ size_max
      → (m' : Mem) × (sort comp n w m ≡ returned m')
        × Reorders w n m m'
        × (IsOrder comp → IsAscending comp w n m')

-- What the C standard says of bsearch where an element matches.
pub record FindsAny (search : Comp → List ℕ → ℕ → ℕ → Mem → Option ℕ) : Type 0 where
  pub finds :
      (comp : Comp) (key : List ℕ) (w n : ℕ) (m : Mem) (i : ℕ)
      → IsOrder comp
      → IsAscending comp w n m
      → i < n
      → comp key (item w m i) ≡ pos 0
      → (j : ℕ) × (search comp key n w m ≡ some j) × (j < n) × (comp key (item w m j) ≡ pos 0)
