-- ===== src/Store/Queries.antt =====
-- One function for each kind of query; `p` is the `where`, and `f` writes the `data`.
use restaurant_management_ba.Base.{
  ℕ, ◌+◌, Bool, Option, none, some, List, [], ◌∷◌, if◌then◌else◌, max,
}

module _ {A : Type 0} where
  -- `findFirst`, and `findUnique`
  unfoldable pub find_first : (A → Bool) → List A → Option A
  find_first p [] = none
  find_first p (x ∷ xs) = if p x then some x else find_first p xs

  -- The rows after `updateMany`.
  unfoldable pub update_many : (A → Bool) → (A → A) → List A → List A
  update_many p f [] = []
  update_many p f (x ∷ xs) = (if p x then f x else x) ∷ update_many p f xs

  -- `count`, and the count that `updateMany` returns.
  unfoldable pub count : (A → Bool) → List A → ℕ
  count p [] = 0
  count p (x ∷ xs) = (if p x then 1 else 0) + count p xs

  -- The rows that `findMany` returns.
  unfoldable pub find_many : (A → Bool) → List A → List A
  find_many p [] = []
  find_many p (x ∷ xs) = if p x then x ∷ find_many p xs else find_many p xs

  -- The greatest value of a column: `findFirst` with `orderBy: { column: "desc" }`, that column alone.
  unfoldable pub find_max : (A → Bool) → (A → ℕ) → List A → Option ℕ
  find_max p f [] = none
  find_max p f (x ∷ xs) =
      let rest = find_max p f xs in
      if p x then some (elim rest [ none ↦ f x | some m ↦ max (f x) m ]) else rest

  -- `findFirst` with `orderBy: { createdAt: "desc" }`
  unfoldable pub find_last : (A → Bool) → List A → Option A
  find_last p [] = none
  find_last p (x ∷ xs) =
      let rest = find_last p xs in
      elim rest [ none ↦ if p x then some x else none | some y ↦ some y ]

  -- The rows after `deleteMany`.
  unfoldable pub delete_many : (A → Bool) → List A → List A
  delete_many p [] = []
  delete_many p (x ∷ xs) = let rest = delete_many p xs in if p x then rest else x ∷ rest
