-- ===== src/Qsort/Reorder.antt =====
-- What a sort may do to memory: move whole elements about, and nothing else.
use codelib.Base.{ℕ, ◌*◌, ◌≤◌, ◌<◌, ◌≡◌, refl, ◌∙◌, ap, arith}
use codelib.Qsort.{Mem, swap_bytes}
use codelib.Qsort.Bytes.{item, swapped, item-swap_bytes, swap_bytes-behind}

-- The n elements of w bytes from the base on are the old ones, each once: `to` says where an
-- element went, `from` where it came from. The bytes behind them are as they were.
pub record Reorders (w n : ℕ) (m m' : Mem) : Type 0 where
  pub from : ℕ → ℕ
  pub to : ℕ → ℕ
  pub from_to : (i : ℕ) → from (to i) ≡ i
  pub to_from : (i : ℕ) → to (from i) ≡ i
  pub in_range : (i : ℕ) → i < n → from i < n
  pub to_in_range : (i : ℕ) → i < n → to i < n
  pub moved : (i : ℕ) → item w m' i ≡ item w m (from i)
  pub outside : (x : ℕ) → n * w ≤ x → m' x ≡ m x

module _ {w n : ℕ} where
  pub Reorders-refl : (m : Mem) → Reorders w n m m
  Reorders-refl m = record {
    from = λ i. i;
    to = λ i. i;
    from_to = λ i. refl;
    to_from = λ i. refl;
    in_range = λ i h. h;
    to_in_range = λ i h. h;
    moved = λ i. refl;
    outside = λ x h. refl;
  }

  pub Reorders-trans :
      {m1 m2 m3 : Mem} → Reorders w n m1 m2 → Reorders w n m2 m3 → Reorders w n m1 m3
  Reorders-trans p q = record {
    from = λ i. p.from (q.from i);
    to = λ i. q.to (p.to i);
    from_to = λ i. ap p.from (q.from_to (p.to i)) ∙ p.from_to i;
    to_from = λ i. ap q.to (p.to_from (q.from i)) ∙ q.to_from i;
    in_range = λ i h. p.in_range (q.from i) (q.in_range i h);
    to_in_range = λ i h. q.to_in_range (p.to i) (p.to_in_range i h);
    moved = λ i. q.moved i ∙ p.moved (q.from i);
    outside = λ x h. q.outside x h ∙ p.outside x h;
  }

swapped-swapped : (i j r : ℕ) → swapped i j (swapped i j r) ≡ r
swapped-swapped i j r = ground arith

-- The exchange of two elements in range reorders.
pub swap-Reorders :
    (w n i j : ℕ) (m : Mem) → i < j → j < n → Reorders w n m (swap_bytes w (i * w) (j * w) m)
swap-Reorders w n i j m h k = record {
  from = swapped i j;
  to = swapped i j;
  from_to = swapped-swapped i j;
  to_from = swapped-swapped i j;
  in_range = λ r lt. ground arith;
  to_in_range = λ r lt. ground arith;
  moved = λ r. item-swap_bytes w i j r m h;
  outside = λ x out. swap_bytes-behind w i j n x m h k out;
}
