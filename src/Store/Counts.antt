-- ===== src/Store/Counts.antt =====
-- Counts of rows before and after an update, and the newest row that a query finds.
use restaurant_management_ba.Base.{
  ℕ, ◌+◌, ◌≤◌, ◌<◌, ◌≡◌, refl, inl, inr, Bool-cases, Option-cases, Bool, true, false, none, some,
  List, [], ◌∷◌, arith, if◌then◌else◌, ◌==◌,
}
use mathlib.Core.Path.{subst}
use restaurant_management_ba.Store.Queries.{find_first, find_last, update_many, count}
use restaurant_management_ba.Store.Laws.{update_many-count_zero}
use restaurant_management_ba.Store.Keyed.{IsKeyed, count-absent}

abbrev pub one_if : Bool → ℕ
one_if b = if b then 1 else 0

module _ {A : Type 0} where
  -- An update of rows on which a condition does not change.
  pub count-update_off :
      (q p : A → Bool) (f : A → A) (xs : List A)
      → ((x : A) → p x ≡ true → q (f x) ≡ q x)
      → count q (update_many p f xs) ≡ count q xs
  unfolding count update_many
  count-update_off q p f [] h = refl
  count-update_off q p f (x ∷ xs) h = ground (arith, h x, count-update_off q p f xs h)

  pub count_le :
      (p q : A → Bool) (xs : List A) → ((x : A) → p x ≡ true → q x ≡ true) → count p xs ≤ count q xs
  unfolding count
  count_le p q [] h = omega arith
  count_le p q (x ∷ xs) h = ground (arith, h x, count_le p q xs h)

  -- No row meets a condition that an update of all rows that could meet it breaks.
  pub count-update_none :
      (q p : A → Bool) (f : A → A) (xs : List A)
      → ((x : A) → p x ≡ true → q (f x) ≡ false)
      → ((x : A) → q x ≡ true → p x ≡ true)
      → count q (update_many p f xs) ≡ 0
  unfolding count update_many
  count-update_none q p f [] h k = refl
  count-update_none q p f (x ∷ xs) h k = ground (arith, h x, k x, count-update_none q p f xs h k)

  -- A row that is found is counted.
  pub count-found_le :
      (q p : A → Bool) (xs : List A) (o : A) → find_first p xs ≡ some o → one_if (q o) ≤ count q xs
  unfolding count find_first
  count-found_le q p [] o h = cc
  count-found_le q p (x ∷ xs) o h = ground (arith, count-found_le q p xs o)

  pub find_last_holds : (p : A → Bool) (xs : List A) (x : A) → find_last p xs ≡ some x → p x ≡ true
  unfolding find_last
  find_last_holds p [] x h = cc
  find_last_holds p (y ∷ xs) x h = ground (arith, find_last_holds p xs x)

  pub find_last-none : (p : A → Bool) (xs : List A) → find_last p xs ≡ none → count p xs ≡ 0
  unfolding find_last count
  find_last-none p [] h = refl
  find_last-none p (x ∷ xs) h = ground (arith, find_last-none p xs)

module _ {A : Type 0} (key : A → ℕ) (i : ℕ) where
  -- An update of the one row with a key changes a count by that row alone.
  pub count-update_found :
      (q p : A → Bool) (f : A → A) (xs : List A) (o : A)
      → IsKeyed key xs
      → find_first p xs ≡ some o
      → ((x : A) → p x ≡ true → key x ≡ i)
      → count q (update_many p f xs) + one_if (q o) ≡ count q xs + one_if (q (f o))
  unfolding count update_many find_first
  count-update_found q p f [] o k h hp = cc
  count-update_found q p f (x ∷ xs) o k h hp = elim (Bool-cases (p x)) [
    | inl e ↦
        let same : o ≡ x = ground arith in
        let rest : update_many p f xs ≡ xs =
          update_many-count_zero p f xs
            (count-absent key i p xs (rw (hp x e) at k.0) (λ y m. hp y m)) in
        ground (arith, rest)
    | inr e ↦ ground (arith, count-update_found q p f xs o k.1)
  ]

  newest_there :
      (q : A → Bool) (xs : List A) (o : A)
      → find_last q xs ≡ some o
      → key o ≡ i
      → 0 < count (λ y. key y == i) xs
  unfolding count find_last
  newest_there q [] o h e = cc
  newest_there q (x ∷ xs) o h e = elim (Option-cases (find_last q xs)) [
    | inl n ↦ ground (arith, n)
    | inr (y, n) ↦ ground (arith, newest_there q xs y n, n)
  ]

  -- The newest row that is found is the one with its key.
  pub find_last-key :
      (q p : A → Bool) (xs : List A) (o : A)
      → IsKeyed key xs
      → find_last q xs ≡ some o
      → ((x : A) → p x ≡ true → key x ≡ i)
      → key o ≡ i
      → p o ≡ true
      → find_first p xs ≡ some o
  unfolding find_last find_first
  find_last-key q p [] o k h hp e m = cc
  find_last-key q p (x ∷ xs) o k h hp e m = elim (Option-cases (find_last q xs)) [
    | inl n ↦ ground (arith, n)
    | inr (y, n) ↦
        let same : find_last q xs ≡ some o = ground (arith, n) in
        let there : 0 < count (λ z. key z == i) xs = newest_there q xs o same e in
        elim (Bool-cases (p x)) [
          | inl c ↦
              absurd
                (omega (arith, there, subst (λ j. count (λ z. key z == j) xs ≡ 0) (hp x c) k.0))
          | inr c ↦ rw c (find_last-key q p xs o k.1 same hp e m)
        ]
  ]
