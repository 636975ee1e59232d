-- ===== src/Store/Keyed.antt =====
-- A table with a primary key: a query by key reaches one row.
use restaurant_management_ba.Base.{
  ℕ, ◌≡◌, refl, sym, ◌∙◌, inl, inr, Bool-cases, Bool, true, some, List, [], ◌∷◌, ◌++◌, arith,
  if◌then◌else◌, ◌==◌, ◌≢◌, ◌<◌, All, All-map,
}
use restaurant_management_ba.Store.Queries.{find_first, update_many, count}
use mathlib.Core.Path.{subst}
use mathlib.Core.Bool.{false≢true}
use restaurant_management_ba.Store.Laws.{count-update_many, count-append, update_many-count_zero}

-- The rows of a table before and after, in their places; new rows stand at the end.
abbrev pub Rows : {A : Type 0} → (A → A → Type 0) → List A → List A → Type 0
Rows R [] ys = Unit
Rows R (x ∷ xs) [] = ⊥
Rows R (x ∷ xs) (y ∷ ys) = R x y × Rows R xs ys

module _ {A : Type 0} (R : A → A → Type 0) where
  pub Rows-refl : ((x : A) → R x x) → (xs : List A) → Rows R xs xs
  Rows-refl r [] = tt
  Rows-refl r (x ∷ xs) = (r x, Rows-refl r xs)

  pub Rows-trans :
      ((x y z : A) → R x y → R y z → R x z)
      → (xs ys zs : List A) → Rows R xs ys
      → Rows R ys zs
      → Rows R xs zs
  Rows-trans t [] ys zs h k = tt
  Rows-trans t (x ∷ xs) [] zs h k = absurd h
  Rows-trans t (x ∷ xs) (y ∷ ys) [] h k = absurd k
  Rows-trans t (x ∷ xs) (y ∷ ys) (z ∷ zs) h k = (t x y z h.0 k.0, Rows-trans t xs ys zs h.1 k.1)

  pub Rows-append : ((x : A) → R x x) → (xs ys : List A) → Rows R xs (xs ++ ys)
  Rows-append r [] ys = tt
  Rows-append r (x ∷ xs) ys = (r x, Rows-append r xs ys)

  -- A row found before is found after, if what changed does not bear on the query.
  pub find_first-Rows :
      (q : A → Bool) (xs ys : List A) (o : A)
      → ((x y : A) → R x y → q y ≡ q x)
      → find_first q xs ≡ some o
      → Rows R xs ys
      → (p : A) × (find_first q ys ≡ some p) × R o p
  unfolding find_first
  find_first-Rows q [] ys o keep h r = cc
  find_first-Rows q (x ∷ xs) [] o keep h r = absurd r
  find_first-Rows q (x ∷ xs) (y ∷ ys) o keep h (r, rs) = elim (Bool-cases (q x)) [
    | inl e ↦ let same : x ≡ o = ground arith in (y, rw (keep x y r ∙ e), subst (λ z. R z y) same r)
    | inr e ↦
        let (p, found, related) = find_first-Rows q xs ys o keep (ground arith) rs in
        (p, rw (keep x y r ∙ e) found, related)
  ]

module _ {A : Type 0} (key : A → ℕ) where
  -- No two rows have the same key.
  abbrev pub IsKeyed : List A → Type 0
  IsKeyed [] = Unit
  IsKeyed (x ∷ xs) = (count (λ y. key y == key x) xs ≡ 0) × IsKeyed xs

  count-key-update_many :
      (j : ℕ) (p : A → Bool) (f : A → A) (xs : List A)
      → ((x : A) → key (f x) ≡ key x)
      → count (λ y. key y == j) (update_many p f xs) ≡ count (λ y. key y == j) xs
  count-key-update_many j p f xs h = count-update_many (λ y. key y == j) p f xs (λ x. rw (h x))

  pub IsKeyed-update_many :
      (p : A → Bool) (f : A → A) (xs : List A)
      → ((x : A) → key (f x) ≡ key x)
      → IsKeyed xs
      → IsKeyed (update_many p f xs)
  unfolding update_many
  IsKeyed-update_many p f [] h k = tt
  IsKeyed-update_many p f (x ∷ xs) h k =
      let same : key (if p x then f x else x) ≡ key x = ground (arith, h x) in
      (rw same (count-key-update_many (key x) p f xs h ∙ k.0), IsKeyed-update_many p f xs h k.1)

  pub IsKeyed-append :
      (xs : List A) (y : A)
      → count (λ x. key x == key y) xs ≡ 0
      → IsKeyed xs
      → IsKeyed (xs ++ (y ∷ []))
  unfolding count
  IsKeyed-append [] y n k = (refl, tt)
  IsKeyed-append (x ∷ xs) y n k = (
    ground (arith, count-append (λ z. key z == key x) xs (y ∷ [])),
    IsKeyed-append xs y (ground arith) k.1,
  )

  module _ (i : ℕ) where
    pub count-absent :
        (p : A → Bool) (xs : List A)
        → count (λ y. key y == i) xs ≡ 0
        → ((x : A) → p x ≡ true → key x ≡ i)
        → count p xs ≡ 0
    unfolding count
    count-absent p [] h hp = refl
    count-absent p (x ∷ xs) h hp = ground (arith, hp x, count-absent p xs)

    -- Of the rows with the key, an update by a narrower condition can reach only the one found.
    pub count-found :
        (p q : A → Bool) (xs : List A) (o : A)
        → IsKeyed xs
        → find_first q xs ≡ some o
        → ((x : A) → p x ≡ true → q x ≡ true)
        → ((x : A) → q x ≡ true → key x ≡ i)
        → count p xs ≡ (if p o then 1 else 0)
    unfolding count find_first
    count-found p q [] o k h hp hq = cc
    count-found p q (x ∷ xs) o k h hp hq = elim (Bool-cases (q x)) [
      | inl e ↦ ground (arith, count-absent p xs (rw (hq x e) at k.0) (λ y m. hq y (hp y m)))
      | inr e ↦ ground (arith, hp x, count-found p q xs o k.1)
    ]

    -- What a query by key finds after such an update.
    pub find_first-update_found :
        (p q : A → Bool) (f : A → A) (xs : List A) (o : A)
        → find_first q xs ≡ some o
        → ((x : A) → q (f x) ≡ q x)
        → find_first q (update_many p f xs) ≡ some (if p o then f o else o)
    unfolding update_many find_first
    find_first-update_found p q f [] o h hf = cc
    find_first-update_found p q f (x ∷ xs) o h hf =
        ground (arith, hf x, find_first-update_found p q f xs o)

    -- The rows before and after are related one by one.
    pub Rows-update_found :
        (R : A → A → Type 0) (p q : A → Bool) (f : A → A) (xs : List A) (o : A)
        → ((x : A) → R x x)
        → IsKeyed xs
        → find_first q xs ≡ some o
        → ((x : A) → p x ≡ true → q x ≡ true)
        → ((x : A) → q x ≡ true → key x ≡ i)
        → (p o ≡ true → R o (f o))
        → Rows R xs (update_many p f xs)
    unfolding update_many find_first
    Rows-update_found R p q f [] o r k h hp hq step = tt
    Rows-update_found R p q f (x ∷ xs) o r k h hp hq step = elim (Bool-cases (q x)) [
      | inl e ↦
          let same : o ≡ x = ground arith in
          let none_left : count p xs ≡ 0 =
            count-absent p xs (rw (hq x e) at k.0) (λ y m. hq y (hp y m)) in
          (
            at_row x (subst (λ z. p z ≡ true → R z (f z)) same step),
            rw (update_many-count_zero p f xs none_left) (Rows-refl R r xs),
          )
      | inr e ↦ (
        at_row x (λ m. absurd (false≢true (sym e ∙ hp x m))),
        Rows-update_found R p q f xs o r k.1 (ground arith) hp hq step,
      )
    ]
      where
        at_row : (z : A) → (p z ≡ true → R z (f z)) → R z (if p z then f z else z)
        at_row z m = elim (Bool-cases (p z)) [ inl e ↦ rw e (m e) | inr e ↦ rw e (r z) ]

module _ {A : Type 0} (key : A → ℕ) where
  -- A key that counts to nothing is on no row.
  pub All-absent : (j : ℕ) (xs : List A) → count (λ y. key y == j) xs ≡ 0 → All (λ x. key x ≢ j) xs
  unfolding count
  All-absent j [] n = tt
  All-absent j (x ∷ xs) n = (ground arith, All-absent j xs (ground arith))

  pub count-found_pos :
      (q : A → Bool) (xs : List A) (o : A)
      → find_first q xs ≡ some o
      → 0 < count (λ y. key y == key o) xs
  unfolding count find_first
  count-found_pos q [] o h = cc
  count-found_pos q (x ∷ xs) o h = ground (arith, count-found_pos q xs o)

  -- The row that is found is the only one with its key.
  pub only_found :
      (q : A → Bool) (xs : List A) (o : A)
      → IsKeyed key xs
      → find_first q xs ≡ some o
      → All (λ x. key x ≡ key o → x ≡ o) xs
  unfolding find_first
  only_found q [] o k h = tt
  only_found q (x ∷ xs) o k h = elim (Bool-cases (q x)) [
    | inl e ↦
        let same : o ≡ x = ground arith in
        (
          λ _. sym same,
          All-map (λ y. key y ≢ key o) (λ y. key y ≡ key o → y ≡ o) xs (λ y n e'. absurd (n e'))
              (All-absent (key o) xs (rw same k.0)),
        )
    | inr e ↦
        let found : find_first q xs ≡ some o = ground arith in
        (
          λ e'. absurd (
              omega (
                arith,
                subst (λ j. count (λ y. key y == j) xs ≡ 0) e' k.0,
                count-found_pos q xs o found,
              )),
          only_found q xs o k.1 found,
        )
  ]
