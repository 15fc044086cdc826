-- ===== src/Base/Bits.antt =====
-- `|` of two numbers without a digit in common.
use Prim.Native.Nat.{max, digits, bit_or-bitwise}
use native.Mathlib.Nat.{pow-suc}
use codelib.Base.{ℕ, zero, suc, ◌+◌, ◌*◌, ◌/◌, ◌%◌, ◌^◌, ◌≤◌, ◌<◌, bit_or, ◌≡◌, refl, ap, arith}

half : (k h a : ℕ) → a ≡ h * 2 ^ suc k → a / 2 ≡ h * 2 ^ k
half k h a e = omega (arith, e, ap (λ (t : ℕ). h * t) (pow-suc 2 k))

even : (k h a : ℕ) → a ≡ h * 2 ^ suc k → a % 2 ≡ 0
even k h a e = omega (arith, e, ap (λ (t : ℕ). h * t) (pow-suc 2 k))

digits_fields :
    (k n a h l : ℕ) → a ≡ h * 2 ^ k → l < 2 ^ k → a ≤ n → digits (λ b. b) max n a l ≡ a + l
digits_fields k zero a h l e fits le = omega (arith, le)
digits_fields k (suc n) zero h l e fits le = omega arith
digits_fields zero (suc n) (suc a) h l e fits le = ground (
  arith,
  digits_fields zero n (suc a / 2) (suc a / 2) (l / 2) (omega arith) (omega (arith, fits))
      (omega (arith, le)),
  fits,
)
digits_fields (suc k) (suc n) (suc a) h l e fits le = ground (
  arith,
  digits_fields k n (suc a / 2) h (l / 2) (half k h (suc a) e) (omega (arith, fits, pow-suc 2 k))
      (omega (arith, le)),
  even k h (suc a) e,
)

pub bit_or-add : (k h l : ℕ) → l < 2 ^ k → bit_or (h * 2 ^ k) l ≡ h * 2 ^ k + l
bit_or-add k h l fits =
    simp bit_or-bitwise (digits_fields k (h * 2 ^ k) (h * 2 ^ k) h l refl fits (omega arith))
