-- ===== src/Ibv/Sock/Pair/Sizes.antt =====
-- Sums of the sizes of the first calls.
use codelib.Base.{nat_cases, ℕ, zero, suc, ◌+◌, ◌≤◌, ◌<◌, ◌≡◌, refl, inl, inr, arith}

unfoldable pub total : (ℕ → ℕ) → ℕ → ℕ
total size zero = 0
total size (suc k) = total size k + size k

module _ (size : ℕ → ℕ) where
  pub total-suc : (k : ℕ) → total size (suc k) ≡ total size k + size k
  unfolding total
  total-suc k = refl

  pub total_mono : (j k : ℕ) → j ≤ k → total size j ≤ total size k
  unfolding total
  total_mono j zero h = ground arith
  total_mono j (suc k) h = elim (nat_cases j (suc k)) [
    | inl e ↦ rw e (omega arith)
    | inr (inl lt) ↦ omega (arith, total_mono j k (omega arith))
    | inr (inr gt) ↦ absurd (omega arith)
  ]

  pub total_strict : ((i : ℕ) → 0 < size i) → (j k : ℕ) → total size j ≤ total size k → j ≤ k
  total_strict pos j k h = elim (nat_cases j k) [
    | inl e ↦ omega arith
    | inr (inl lt) ↦ omega arith
    | inr (inr gt) ↦ absurd (omega (arith, pos k, total-suc k, total_mono (suc k) j gt))
  ]
