-- ===== src/Store/Laws.antt =====
-- Laws of the queries on any table.
use restaurant_management_ba.Base.{
  ◌+◌, ◌≡◌, refl, inl, inr, Bool-cases, All, Bool, true, none, some, List, [], ◌∷◌, ◌++◌, arith,
  length,
}
use mathlib.Core.Path.{subst}
use restaurant_management_ba.Store.Queries.{find_first, update_many, count}

module _ {A : Type 0} where
  -- What is found meets the condition.
  pub find_first_holds :
      (p : A → Bool) (xs : List A) (x : A) → find_first p xs ≡ some x → p x ≡ true
  unfolding find_first
  find_first_holds p [] x h = cc
  find_first_holds p (y ∷ xs) x h = ground (arith, find_first_holds p xs x)

  -- An update that no row meets changes nothing.
  pub update_many-count_zero :
      (p : A → Bool) (f : A → A) (xs : List A) → count p xs ≡ 0 → update_many p f xs ≡ xs
  unfolding update_many count
  update_many-count_zero p f [] h = refl
  update_many-count_zero p f (x ∷ xs) h = ground (arith, update_many-count_zero p f xs)

  pub find_first-append :
      (p : A → Bool) (xs ys : List A) (x : A)
      → find_first p xs ≡ some x
      → find_first p (xs ++ ys) ≡ some x
  unfolding find_first
  find_first-append p [] ys x h = cc
  find_first-append p (y ∷ xs) ys x h = ground (arith, find_first-append p xs ys x)

  pub find_first-append_none :
      (p : A → Bool) (xs ys : List A)
      → find_first p xs ≡ none
      → find_first p (xs ++ ys) ≡ find_first p ys
  unfolding find_first
  find_first-append_none p [] ys h = refl
  find_first-append_none p (y ∷ xs) ys h = ground (arith, find_first-append_none p xs ys)

  pub count-append : (p : A → Bool) (xs ys : List A) → count p (xs ++ ys) ≡ count p xs + count p ys
  unfolding count
  count-append p [] ys = ground arith
  count-append p (x ∷ xs) ys = ground (arith, count-append p xs ys)

  -- Counting and finding agree on whether a row is there.
  pub find_first-none : (p : A → Bool) (xs : List A) → count p xs ≡ 0 → find_first p xs ≡ none
  unfolding count find_first
  find_first-none p [] h = refl
  find_first-none p (x ∷ xs) h = ground (arith, find_first-none p xs)

  -- A condition that an update neither makes nor breaks counts the same rows after it.
  pub count-update_many :
      (q p : A → Bool) (f : A → A) (xs : List A)
      → ((x : A) → q (f x) ≡ q x)
      → count q (update_many p f xs) ≡ count q xs
  unfolding count update_many
  count-update_many q p f [] h = refl
  count-update_many q p f (x ∷ xs) h = ground (arith, h x, count-update_many q p f xs h)

  pub length-update_many :
      (p : A → Bool) (f : A → A) (xs : List A) → length (update_many p f xs) ≡ length xs
  unfolding update_many
  length-update_many p f [] = refl
  length-update_many p f (x ∷ xs) = omega (arith, length-update_many p f xs)

  -- What holds of all rows holds of the row that is found, and after an update that keeps it.
  pub All-find_first :
      (P : A → Type 0) (p : A → Bool) (xs : List A) (x : A)
      → All P xs
      → find_first p xs ≡ some x
      → P x
  unfolding find_first
  All-find_first P p [] x a h = cc
  All-find_first P p (y ∷ xs) x a h = elim (Bool-cases (p y)) [
    | inl e ↦ let same : y ≡ x = ground (arith, e) in subst P same a.0
    | inr e ↦ All-find_first P p xs x a.1 (ground (arith, e))
  ]

  pub All-update_many :
      (P : A → Type 0) (p : A → Bool) (f : A → A) (xs : List A)
      → ((x : A) → P x → P (f x))
      → All P xs
      → All P (update_many p f xs)
  unfolding update_many
  All-update_many P p f [] h a = tt
  All-update_many P p f (x ∷ xs) h a = elim (Bool-cases (p x)) [
    | inl e ↦ (rw e (h x a.0), All-update_many P p f xs h a.1)
    | inr e ↦ (rw e a.0, All-update_many P p f xs h a.1)
  ]
