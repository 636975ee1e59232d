-- ===== src/Customers/Numbers.antt =====
-- The list of numbers that createCustomer makes: trimmed, not empty, and each once.
use Prim.Native.String.{String}
use text.Mathlib.Text.{◌==◌ as str_eq}
use restaurant_management_ba.Base.{
  ◌≡◌, ◌≢◌, refl, ap, ◌∙◌, Bool, false, List, [], ◌∷◌, map, All, inl, inr, Bool-cases, trim,
  trim_twice, filter_filled,
}
use restaurant_management_ba.Store.{delete_many}
use restaurant_management_ba.Customers.Names.{dedupe, trim_phones}

-- A text once in a list.
abbrev pub Distinct : List String → Type 0
Distinct [] = Unit
Distinct (p ∷ ps) = All (λ q. str_eq p q ≡ false) ps × Distinct ps

delete_many-All :
    {A : Type 0} (P : A → Type 0) (p : A → Bool) (xs : List A) → All P xs → All P (delete_many p xs)
unfolding delete_many
delete_many-All P p [] a = tt
delete_many-All P p (x ∷ xs) a = elim (Bool-cases (p x)) [
  | inl e ↦ rw e (delete_many-All P p xs a.1)
  | inr e ↦ rw e (a.0, delete_many-All P p xs a.1)
]

delete_many-gone :
    {A : Type 0} (p : A → Bool) (xs : List A) → All (λ x. p x ≡ false) (delete_many p xs)
unfolding delete_many
delete_many-gone p [] = tt
delete_many-gone p (x ∷ xs) = elim (Bool-cases (p x)) [
  | inl e ↦ rw e (delete_many-gone p xs)
  | inr e ↦ rw e (e, delete_many-gone p xs)
]

delete_many-Distinct :
    (p : String → Bool) (ss : List String) → Distinct ss → Distinct (delete_many p ss)
unfolding delete_many
delete_many-Distinct p [] d = tt
delete_many-Distinct p (s ∷ ss) d = elim (Bool-cases (p s)) [
  | inl e ↦ rw e (delete_many-Distinct p ss d.1)
  | inr e ↦ rw e (delete_many-All (λ q. str_eq s q ≡ false) p ss d.0, delete_many-Distinct p ss d.1)
]

pub dedupe-Distinct : (ss : List String) → Distinct (dedupe ss)
unfolding dedupe
dedupe-Distinct [] = tt
dedupe-Distinct (s ∷ ss) = (
  delete_many-gone (str_eq s) (dedupe ss),
  delete_many-Distinct (str_eq s) (dedupe ss) (dedupe-Distinct ss),
)

-- A text that is trimmed and not empty.
abbrev IsTrimmed : String → Type 0
IsTrimmed s = (trim s ≡ s) × (s ≢ "")

dedupe-All : (P : String → Type 0) (ss : List String) → All P ss → All P (dedupe ss)
unfolding dedupe
dedupe-All P [] a = tt
dedupe-All P (s ∷ ss) a = (a.0, delete_many-All P (str_eq s) (dedupe ss) (dedupe-All P ss a.1))

filter_filled-kept : (ss : List String) → All IsTrimmed ss → filter_filled ss ≡ ss
filter_filled-kept [] a = refl
filter_filled-kept (String.[] ∷ ss) a = absurd (a.0.1 refl)
filter_filled-kept (String.◌∷◌ c s ∷ ss) a =
    ap (λ r. String.◌∷◌ c s ∷ r) (filter_filled-kept ss a.1)

map-kept : (ss : List String) → All IsTrimmed ss → map trim ss ≡ ss
map-kept [] a = refl
map-kept (s ∷ ss) a = rw (a.0.0, map-kept ss a.1) refl

filter_filled-All : (ss : List String) → All (λ s. trim s ≡ s) ss → All IsTrimmed (filter_filled ss)
filter_filled-All [] a = tt
filter_filled-All (String.[] ∷ ss) a = filter_filled-All ss a.1
filter_filled-All (String.◌∷◌ c s ∷ ss) a = ((a.0, λ e. cc), filter_filled-All ss a.1)

map-trimmed : (ss : List String) → All (λ s. trim s ≡ s) (map trim ss)
map-trimmed [] = tt
map-trimmed (s ∷ ss) = (trim_twice s, map-trimmed ss)

pub trim_phones-kept :
    (ss : List String) → trim_phones (dedupe (trim_phones ss)) ≡ dedupe (trim_phones ss)
unfolding trim_phones
trim_phones-kept ss =
    let a : All IsTrimmed (dedupe (trim_phones ss)) =
      dedupe-All IsTrimmed (trim_phones ss) (filter_filled-All (map trim ss) (map-trimmed ss)) in
    ap filter_filled (map-kept (dedupe (trim_phones ss)) a)
    ∙ filter_filled-kept (dedupe (trim_phones ss)) a
