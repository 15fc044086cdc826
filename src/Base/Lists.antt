-- ===== src/Base/Lists.antt =====
-- What take and drop leave of a list.
use codelib.Base.{ℕ, zero, suc, ◌≤◌, ◌≡◌, refl, ap, List, [], ◌∷◌, ◌++◌, arith, length, take, drop}

module _ {ℓ} {A : Type ℓ} where
  pub drop_append : (xs ys : List A) (n : ℕ) → n ≡ length xs → drop n (xs ++ ys) ≡ ys
  drop_append [] ys n e = rw e refl
  drop_append (x ∷ xs) ys zero e = absurd (omega (arith, e))
  drop_append (x ∷ xs) ys (suc n) e = drop_append xs ys n (omega (arith, e))

  pub take_append : (xs ys : List A) (n : ℕ) → n ≡ length xs → take n (xs ++ ys) ≡ xs
  take_append [] [] n e = rw e refl
  take_append [] (y ∷ ys) n e = rw e refl
  take_append (x ∷ xs) ys zero e = absurd (omega (arith, e))
  take_append (x ∷ xs) ys (suc n) e = ap (λ l. x ∷ l) (take_append xs ys n (omega (arith, e)))

  pub take-drop : (xs : List A) (n : ℕ) → take n xs ++ drop n xs ≡ xs
  take-drop [] zero = refl
  take-drop [] (suc n) = refl
  take-drop (x ∷ xs) zero = refl
  take-drop (x ∷ xs) (suc n) = ap (λ l. x ∷ l) (take-drop xs n)

  pub length-take : (xs : List A) (n : ℕ) → n ≤ length xs → length (take n xs) ≡ n
  length-take [] zero h = refl
  length-take [] (suc n) h = absurd (omega (arith, h))
  length-take (x ∷ xs) zero h = refl
  length-take (x ∷ xs) (suc n) h = omega (arith, length-take xs n (omega (arith, h)))

  pub take_all : (xs : List A) (n : ℕ) → length xs ≡ n → take n xs ≡ xs
  take_all [] zero h = refl
  take_all [] (suc n) h = refl
  take_all (x ∷ xs) zero h = absurd (omega arith)
  take_all (x ∷ xs) (suc n) h = ap (λ l. x ∷ l) (take_all xs n (omega arith))
