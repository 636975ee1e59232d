-- ===== src/Staff/Regranted.antt =====
-- The cache of permissions after a change of a role: the entries of the employees who have it are gone.
use restaurant_management_ba.Base.{
  ℕ, ◌≡◌, ◌≢◌, refl, sym, ap, ◌∙◌, Bool, true, false, none, some, List, [], ◌∷◌, ◌==◌, arith, All,
  All-map, inl, inr, Bool-cases, Option-cases,
}
use mathlib.Core.Path.{subst}
use restaurant_management_ba.Store.{find_first, find_first_holds, find_many, All-find_first}
use restaurant_management_ba.Staff.Rows.{Staff, Employee, Role, CacheEntry}
use restaurant_management_ba.Staff.Access.{
  fetch_permissions, granted_by, is_working, is_entry, invalidate_employee_permissions,
}
use restaurant_management_ba.Staff.Employees.{is_role}
use restaurant_management_ba.Staff.Roles.{is_assigned, invalidate_all}
use restaurant_management_ba.Staff.Cached.{
  IsTrue, IsCoherent, fetch_permissions_lem, granted_in, delete_many-kept,
}

-- The tables after a change of the role `id`: everything else is as it was.
pub record Regrants (id : ℕ) (s t : Staff) : Type 0 where
  pub employees : t.employees ≡ s.employees
  pub permissions : t.permissions ≡ s.permissions
  pub roles :
      (j : ℕ) → j ≢ id → find_first (λ r. r.id == j) t.roles ≡ find_first (λ r. r.id == j) s.roles
  pub grants :
      (j : ℕ)
      → j ≢ id
      → find_many (λ g. g.role_id == j) t.role_permissions
        ≡ find_many (λ g. g.role_id == j) s.role_permissions

granted_off :
    (id : ℕ) (s t : Staff) (x : Employee)
    → Regrants id s t
    → x.role_id ≢ id
    → granted_in t.roles t.permissions t.role_permissions (some x)
      ≡ granted_in s.roles s.permissions s.role_permissions (some x)
unfolding granted_in
granted_off id s t x w n = elim (Option-cases (find_first (λ r. r.id == x.role_id) s.roles)) [
  | inl e ↦ rw (granted_in, w.roles x.role_id n, e) refl
  | inr (z, e) ↦
      let same : z.id ≡ x.role_id =
        ground (arith, find_first_holds (λ r. r.id == x.role_id) s.roles z e) in
      let grants : find_many (λ g. g.role_id == z.id) t.role_permissions
          ≡ find_many (λ g. g.role_id == z.id) s.role_permissions =
        w.grants z.id (λ m. n (sym same ∙ m)) in
      rw (granted_in, w.roles x.role_id n, e, w.permissions, grants) refl
]

-- An entry of an employee with another role stays true.
Regrants-IsTrue :
    (id : ℕ) (s t : Staff) (c : CacheEntry)
    → Regrants id s t
    → ((k : ℕ) (x : Employee)
        → find_first (is_working k c.employee_id) s.employees ≡ some x
        → x.role_id ≢ id)
    → IsTrue s c
    → IsTrue t c
unfolding granted_in
Regrants-IsTrue id s t c w other (k, h) = (
  k,
  elim (Option-cases (find_first (is_working k c.employee_id) s.employees)) [
    | inl e ↦
        let nobody : none ≡ some c.granted =
          sym (
            fetch_permissions_lem c.employee_id k s
            ∙ ap (granted_in s.roles s.permissions s.role_permissions) e)
          ∙ h in
        absurd cc
    | inr (x, e) ↦
        let there : find_first (is_working k c.employee_id) t.employees ≡ some x =
          rw w.employees e in
        fetch_permissions_lem c.employee_id k t
        ∙ ap (granted_in t.roles t.permissions t.role_permissions) there
        ∙ granted_off id s t x w (other k x e)
        ∙ sym (ap (granted_in s.roles s.permissions s.role_permissions) e)
        ∙ sym (fetch_permissions_lem c.employee_id k s)
        ∙ h
  ],
)

-- The entries that are left after the entries of some employees went.
invalidate_all-kept :
    (P : CacheEntry → Type 0) (es : List Employee) (s : Staff)
    → All P s.cache
    → All (λ c. P c × All (λ e. is_entry e.id c ≡ false) es) (invalidate_all es s).cache
unfolding invalidate_all invalidate_employee_permissions
invalidate_all-kept P [] s h = All-map P (λ c. P c × Unit {0}) s.cache (λ c p. (p, tt)) h
invalidate_all-kept P (e ∷ es) s h =
    let t = invalidate_employee_permissions e.id s in
    All-map (λ c. (P c × (is_entry e.id c ≡ false)) × All (λ x. is_entry x.id c ≡ false) es)
      (λ c. P c × All (λ x. is_entry x.id c ≡ false) (e ∷ es)) (invalidate_all es t).cache
      (λ c p. (p.0.0, (p.0.1, p.1)))
      (invalidate_all-kept (λ c. P c × (is_entry e.id c ≡ false)) es t
        (delete_many-kept P (is_entry e.id) s.cache h))

-- Only the cache is another.
invalidate_all-tables :
    (es : List Employee) (s : Staff)
    → invalidate_all es s ≡ record s { cache = (invalidate_all es s).cache }
unfolding invalidate_all invalidate_employee_permissions
invalidate_all-tables [] s = refl
invalidate_all-tables (e ∷ es) s = invalidate_all-tables es (invalidate_employee_permissions e.id s)

All-find_many :
    {A : Type 0} (P : A → Type 0) (q p : A → Bool) (xs : List A) (x : A)
    → All P (find_many q xs)
    → find_first p xs ≡ some x
    → q x ≡ true
    → P x
unfolding find_many find_first
All-find_many P q p [] x a f h = absurd cc
All-find_many P q p (y ∷ ys) x a f h = elim (Bool-cases (q y)) [
  | inl e ↦
      let kept : All P (y ∷ find_many q ys) = rw e at a in
      elim (Bool-cases (p y)) [
        | inl m ↦ let same : y ≡ x = ground (arith, f, m) in subst P same kept.0
        | inr m ↦ All-find_many P q p ys x kept.1 (ground (arith, f, m)) h
      ]
  | inr e ↦
      let kept : All P (find_many q ys) = rw e at a in
      elim (Bool-cases (p y)) [
        | inl m ↦ let same : y ≡ x = ground (arith, f, m) in absurd (ground (arith, e, h, same))
        | inr m ↦ All-find_many P q p ys x kept (ground (arith, f, m)) h
      ]
]

-- The role of an employee is one of the employee's restaurant.
abbrev pub HasOwnRole : List Role → Employee → Type 0
HasOwnRole roles e = All (λ r. r.id ≡ e.role_id → r.restaurant_id ≡ e.restaurant_id) roles

-- Nobody who has the role is left in the cache.
assigned_gone :
    (r id : ℕ) (s : Staff) (y : Role) (c : CacheEntry)
    → find_first (is_role r id) s.roles ≡ some y
    → All (HasOwnRole s.roles) s.employees
    → All (λ e. is_entry e.id c ≡ false) (find_many (is_assigned r id) s.employees)
    → (k : ℕ) (x : Employee) → find_first (is_working k c.employee_id) s.employees ≡ some x
    → x.role_id ≢ id
assigned_gone r id s y c f own gone k x there same =
    let own_x =
      All-find_first (HasOwnRole s.roles) (is_working k c.employee_id) s.employees x own there in
    let own_y =
      All-find_first (λ z. z.id ≡ x.role_id → z.restaurant_id ≡ x.restaurant_id) (is_role r id)
        s.roles y own_x f in
    let working = find_first_holds (is_working k c.employee_id) s.employees x there in
    let is_it = find_first_holds (is_role r id) s.roles y f in
    let assigned : is_assigned r id x ≡ true = ground (arith, working, is_it, own_y, same) in
    let left =
      All-find_many (λ e. is_entry e.id c ≡ false) (is_assigned r id) (is_working k c.employee_id)
        s.employees x gone there assigned in
    ground (arith, left, working)

-- A change of a role, after which the entries of those who have it go.
pub regranted :
    (r id : ℕ) (s t : Staff) (y : Role)
    → find_first (is_role r id) s.roles ≡ some y
    → All (HasOwnRole s.roles) s.employees
    → Regrants id s t
    → t.cache ≡ s.cache
    → IsCoherent s
    → IsCoherent (invalidate_all (find_many (is_assigned r id) s.employees) t)
unfolding fetch_permissions granted_by
regranted r id s t y f own w same h =
    let es = find_many (is_assigned r id) s.employees in
    let u = invalidate_all es t in
    subst (λ v. All (IsTrue v) u.cache) (sym (invalidate_all-tables es t))
      (All-map (λ c. IsTrue s c × All (λ e. is_entry e.id c ≡ false) es) (IsTrue t) u.cache
        (λ c p. Regrants-IsTrue id s t c w (assigned_gone r id s y c f own p.1) p.0)
        (invalidate_all-kept (IsTrue s) es t (subst (λ cs. All (IsTrue s) cs) (sym same) h)))
