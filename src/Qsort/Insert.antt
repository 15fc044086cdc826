-- ===== src/Qsort/Insert.antt =====
-- With a gap of one element the loop over j inserts an element into the sorted ones before it.
use native.Mathlib.Nat.{le_trans, mul-le-mul_right}
use mathlib.Core.Option.{some-injective}
use codelib.Base.{
  ℕ, zero, suc, ◌-◌, ◌*◌, ◌≤◌, ◌<◌, ◌≡◌, ◌≢◌, ◌∙◌, sym, subst, some, arith, leb, if◌then◌else◌,
  Bool-cases, inl, inr, ℕ_discrete,
}
use codelib.Qsort.{Mem, Comp, le_zero, size_max, swap_bytes, sift}
use codelib.Qsort.Bytes.{item, swapped, item-swap_bytes}
use codelib.Qsort.Order.{InOrder, IsOrder}
use codelib.Qsort.Sift.{sift_round}

swapped_first : (i j : ℕ) → swapped i j i ≡ j
swapped_first i j = ground arith

swapped_second : (r : ℕ) → 0 < r → swapped (r - 1) r r ≡ r - 1
swapped_second r h = ground arith

swapped_other : (i j x : ℕ) → x ≢ i → x ≢ j → swapped i j x ≡ x
swapped_other i j x p q = ground arith

module _ (comp : Comp) (w : ℕ) where
  -- The elements up to index q stand in order.
  abbrev pub IsSorted : ℕ → Mem → Type 0
  IsSorted q m = (a b : ℕ) → a < b → b ≤ q → InOrder comp (item w m a) (item w m b)

  -- They do but for the one at r, of which it is known only that it is below those behind it.
  pub record Hole (r q : ℕ) (m : Mem) : Type 0 where
    pub others : (a b : ℕ) → a < b → b ≤ q → a ≢ r → b ≢ r → InOrder comp (item w m a) (item w m b)
    pub behind : (b : ℕ) → r < b → b ≤ q → InOrder comp (item w m r) (item w m b)

  module _ (ord : IsOrder comp) where
    Hole-filled :
        (r q : ℕ) (m : Mem)
        → 0 < r
        → InOrder comp (item w m (r - 1)) (item w m r)
        → Hole r q m
        → IsSorted q m
    Hole-filled r q m pos_r fit h a b lt le = elim (ℕ_discrete b r) [
      | yes e ↦ elim (ℕ_discrete a (r - 1)) [
        | yes f ↦ rw (e, f) fit
        | no f ↦ rw e (
            ord.transitive _ _ _
              (h.others a (r - 1) (omega arith) (omega arith) (omega arith) (omega arith)) fit)
      ]
      | no e ↦ elim (ℕ_discrete a r) [
        | yes f ↦ rw f (h.behind b (omega arith) le)
        | no f ↦ h.others a b lt le f e
      ]
    ]

    Hole-first : (q : ℕ) (m : Mem) → Hole 0 q m → IsSorted q m
    Hole-first q m h a b lt le = elim (ℕ_discrete a 0) [
      | yes e ↦ rw e (h.behind b (omega arith) le)
      | no e ↦ h.others a b lt le e (omega arith)
    ]

    Hole-moved :
        (r q : ℕ) (m : Mem)
        → 0 < r
        → r ≤ q
        → InOrder comp (item w m r) (item w m (r - 1))
        → Hole r q m
        → Hole (r - 1) q (swap_bytes w ((r - 1) * w) (r * w) m)
    Hole-moved r q m pos_r in_range down h = record {
      others = λ a b lt le na nb. rw (at a, at b) (moved_others a b lt le na nb);
      behind = λ b lt le. rw (at (r - 1), at b) (moved_behind b lt le);
    }
      where
        at :
            (x : ℕ)
            → item w (swap_bytes w ((r - 1) * w) (r * w) m) x ≡ item w m (swapped (r - 1) r x)
        at x = item-swap_bytes w (r - 1) r x m (omega arith)

        moved_others :
            (a b : ℕ)
            → a < b
            → b ≤ q
            → a ≢ r - 1
            → b ≢ r - 1
            → InOrder comp (item w m (swapped (r - 1) r a)) (item w m (swapped (r - 1) r b))
        moved_others a b lt le na nb = elim (ℕ_discrete a r) [
          | yes e ↦
              rw (e, swapped_second r pos_r, swapped_other (r - 1) r b nb (omega arith))
                (h.others (r - 1) b (omega arith) le (omega arith) (omega arith))
          | no e ↦ elim (ℕ_discrete b r) [
            | yes f ↦
                rw (f, swapped_second r pos_r, swapped_other (r - 1) r a na e)
                  (h.others a (r - 1) (omega arith) (omega arith) e (omega arith))
            | no f ↦
                rw (swapped_other (r - 1) r a na e, swapped_other (r - 1) r b nb f)
                  (h.others a b lt le e f)
          ]
        ]

        moved_behind :
            (b : ℕ)
            → r - 1 < b
            → b ≤ q
            → InOrder comp (item w m (swapped (r - 1) r (r - 1))) (item w m (swapped (r - 1) r b))
        moved_behind b lt le = rw (swapped_first (r - 1) r) (elim (ℕ_discrete b r) [
          | yes e ↦ rw (e, swapped_second r pos_r) down
          | no e ↦ rw (swapped_other (r - 1) r b (omega arith) e) (h.behind b (omega arith) le)
        ])

    -- One round, and what the rounds after it do.
    sift_round-IsSorted :
        (fuel r q : ℕ) (m : Mem) {m' : Mem}
        → 0 < w
        → 0 < r
        → r ≤ q
        → q * w ≤ size_max
        → Hole r q m
        → (if le_zero (comp (item w m (r - 1)) (item w m r))
            then some m
            else if leb 1 (r - 1)
            then sift comp w fuel (1 * w) ((r - 1) * w) (swap_bytes w ((r - 1) * w) (r * w) m)
            else some (swap_bytes w ((r - 1) * w) (r * w) m))
          ≡ some m'
        → (0 < r - 1
            → r - 1 ≤ q
            → q * w ≤ size_max
            → Hole (r - 1) q (swap_bytes w ((r - 1) * w) (r * w) m)
            → sift comp w fuel (1 * w) ((r - 1) * w) (swap_bytes w ((r - 1) * w) (r * w) m)
              ≡ some m'
            → IsSorted q m')
        → IsSorted q m'
    sift_round-IsSorted fuel r q m {m'} pos_w pos_r le fits h e next =
        elim (Bool-cases (le_zero (comp (item w m (r - 1)) (item w m r)))) [
          | inl stop ↦
              subst (IsSorted q) (some-injective _ _ (rw stop at e))
                (Hole-filled r q m pos_r stop h)
          | inr go ↦ elim (Bool-cases (leb 1 (r - 1))) [
            | inl more ↦
                next (ground arith) (omega arith) fits
                  (Hole-moved r q m pos_r le (ord.total _ _ go) h) (rw (go, more) at e)
            | inr last ↦ subst (IsSorted q) (some-injective _ _ (rw (go, last) at e)) (
                Hole-first q _ (
                  subst (λ k. Hole k q (swap_bytes w ((r - 1) * w) (r * w) m)) (ground arith)
                    (Hole-moved r q m pos_r le (ord.total _ _ go) h)))
          ]
        ]

    -- The loop takes an element that is placed anywhere above the sorted ones to its place.
    pub sift-IsSorted :
        (fuel r q : ℕ) (m : Mem) {m' : Mem}
        → 0 < w
        → 0 < r
        → r ≤ q
        → q * w ≤ size_max
        → Hole r q m
        → sift comp w fuel (1 * w) (r * w) m ≡ some m'
        → IsSorted q m'
    unfolding sift
    sift-IsSorted zero r q m pos_w pos_r le fits h e = cc
    sift-IsSorted (suc fuel) r q m pos_w pos_r le fits h e =
        sift_round-IsSorted fuel r q m pos_w pos_r le fits h
          (sym (sift_round comp w fuel 1 r m pos_w pos_r (le_trans (mul-le-mul_right w le) fits))
            ∙ e)
          (sift-IsSorted fuel (r - 1) q _ pos_w)
