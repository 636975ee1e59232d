-- ===== src/Staff/Cached.antt =====
-- What the query of getEmployeePermissions depends on, and what an entry of the cache says.
use restaurant_management_ba.Base.{
  ℕ, ◌≡◌, refl, sym, ◌∙◌, Bool, true, false, Option, none, some, List, [], ◌∷◌, ◌++◌, ◌==◌, arith,
  All, inl, inr, Bool-cases,
}
use restaurant_management_ba.Store.{find_first, find_many, update_many, delete_many}
use restaurant_management_ba.Staff.Rows.{
  Staff, Employee, Role, RolePermission, Permission, Granted, CacheEntry,
}
use restaurant_management_ba.Staff.Access.{fetch_permissions, granted_by, role_keys, is_working}

module _ {A : Type 0} where
  pub find_first-update_off :
      (q p : A → Bool) (f : A → A) (xs : List A)
      → ((x : A) → p x ≡ true → q x ≡ false)
      → ((x : A) → p x ≡ true → q (f x) ≡ false)
      → find_first q (update_many p f xs) ≡ find_first q xs
  unfolding find_first update_many
  find_first-update_off q p f [] h k = refl
  find_first-update_off q p f (x ∷ xs) h k =
      ground (arith, h x, k x, find_first-update_off q p f xs h k)

  pub find_many-delete_off :
      (q p : A → Bool) (xs : List A)
      → ((x : A) → p x ≡ true → q x ≡ false)
      → find_many q (delete_many p xs) ≡ find_many q xs
  unfolding find_many delete_many
  find_many-delete_off q p [] h = refl
  find_many-delete_off q p (x ∷ xs) h = ground (arith, h x, find_many-delete_off q p xs h)

  pub find_first-delete_off :
      (q p : A → Bool) (xs : List A)
      → ((x : A) → p x ≡ true → q x ≡ false)
      → find_first q (delete_many p xs) ≡ find_first q xs
  unfolding find_first delete_many
  find_first-delete_off q p [] h = refl
  find_first-delete_off q p (x ∷ xs) h = ground (arith, h x, find_first-delete_off q p xs h)

  pub find_many-append_off :
      (q : A → Bool) (xs ys : List A)
      → All (λ y. q y ≡ false) ys
      → find_many q (xs ++ ys) ≡ find_many q xs
  unfolding find_many
  find_many-append_off q [] [] h = refl
  find_many-append_off q [] (y ∷ ys) h = ground (arith, h.0, find_many-append_off q [] ys h.1)
  find_many-append_off q (x ∷ xs) ys h = ground (arith, find_many-append_off q xs ys h)

  -- What is left after a deletion met its condition no more.
  pub delete_many-kept :
      (P : A → Type 0) (p : A → Bool) (xs : List A)
      → All P xs
      → All (λ x. P x × (p x ≡ false)) (delete_many p xs)
  unfolding delete_many
  delete_many-kept P p [] a = tt
  delete_many-kept P p (x ∷ xs) a = elim (Bool-cases (p x)) [
    | inl e ↦ rw e (delete_many-kept P p xs a.1)
    | inr e ↦ rw e ((a.0, e), delete_many-kept P p xs a.1)
  ]

-- An entry says what the query would say.
abbrev pub IsTrue : Staff → CacheEntry → Type 0
IsTrue s c = (r : ℕ) × (fetch_permissions c.employee_id r s ≡ some c.granted)

abbrev pub IsCoherent : Staff → Type 0
IsCoherent s = All (IsTrue s) s.cache

-- The query, of the employee that it finds and the tables of roles.
unfoldable pub granted_in :
    List Role → List Permission → List RolePermission → Option Employee → Option Granted
unfolding role_keys
granted_in roles ps rps o = elim o [
  | none ↦ none
  | some e ↦ elim (find_first (λ r. r.id == e.role_id) roles) [
    | none ↦ none
    | some r ↦ some (record {
      role_name = r.name;
      is_system = r.is_system;
      permissions = role_keys ps (find_many (λ g. g.role_id == r.id) rps);
    })
  ]
]

pub fetch_permissions_lem :
    (e r : ℕ) (s : Staff)
    → fetch_permissions e r s
      ≡ granted_in s.roles s.permissions s.role_permissions
          (find_first (is_working r e) s.employees)
unfolding fetch_permissions granted_by granted_in
fetch_permissions_lem e r s = refl

-- The same tables of roles.
abbrev pub SameRoles : Staff → Staff → Type 0
SameRoles s t =
    (t.roles ≡ s.roles)
    × (t.permissions ≡ s.permissions)
    × (t.role_permissions ≡ s.role_permissions)

pub fetch-SameRoles :
    (e r : ℕ) (s t : Staff)
    → SameRoles s t
    → find_first (is_working r e) t.employees ≡ find_first (is_working r e) s.employees
    → fetch_permissions e r t ≡ fetch_permissions e r s
fetch-SameRoles e r s t (a, b, c) h =
    fetch_permissions_lem e r t ∙ rw (a, b, c, h) refl ∙ sym (fetch_permissions_lem e r s)
