-- ===== src/Paging/Slices.antt =====
-- The first elements of a list, and the others.
use restaurant_management_ba.Base.{
  ℕ, zero, suc, ◌+◌, ◌≤◌, ◌≡◌, refl, sym, ap, ◌∙◌, List, [], ◌∷◌, ◌++◌, length, arith,
}

zero_+ : (n : ℕ) → 0 + n ≡ n
zero_+ n = omega arith

suc_+ : (m n : ℕ) → suc m + n ≡ suc (m + n)
suc_+ m n = omega arith

module _ {ℓ} {A : Type ℓ} where
  abbrev pub take : ℕ → List A → List A
  take zero xs = []
  take (suc n) [] = []
  take (suc n) (x ∷ xs) = x ∷ take n xs

  abbrev pub drop : ℕ → List A → List A
  drop zero xs = xs
  drop (suc n) [] = []
  drop (suc n) (x ∷ xs) = drop n xs

  take_none : (n : ℕ) → take n [] ≡ []
  take_none zero = refl
  take_none (suc n) = refl

  pub take-+ : (m n : ℕ) (xs : List A) → take (m + n) xs ≡ take m xs ++ take n (drop m xs)
  take-+ zero n xs = ap (λ k. take k xs) (zero_+ n)
  take-+ (suc m) n [] = take_none (suc m + n) ∙ sym (take_none n)
  take-+ (suc m) n (x ∷ xs) =
      ap (λ k. take k (x ∷ xs)) (suc_+ m n) ∙ ap (λ ys. x ∷ ys) (take-+ m n xs)

  pub take_all : (n : ℕ) (xs : List A) → length xs ≤ n → take n xs ≡ xs
  take_all n [] h = take_none n
  take_all zero (x ∷ xs) h = absurd (omega (arith, h))
  take_all (suc n) (x ∷ xs) h = ap (λ ys. x ∷ ys) (take_all n xs (omega (arith, h)))

  -- A slice after the first elements goes on with them.
  pub take-++ :
      (a k n m : ℕ) (xs ys : List A)
      → ys ≡ take a xs
      → k ≡ a
      → m ≡ a + n
      → ys ++ take n (drop k xs) ≡ take m xs
  take-++ a k n m xs ys hy hk hm = rw (hy, hk, hm) (sym (take-+ a n xs))
