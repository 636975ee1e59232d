-- ===== src/Staff/Served.antt =====
-- The requests on employees and roles together: the cache of permissions agrees with the tables.
use Prim.Native.String.{String}
use restaurant_management_ba.Base.{
  ℕ, ◌≡◌, ◌≢◌, ◌⊎◌, refl, sym, ap, ◌∙◌, false, ◌&&◌, Option, none, some, List, [], ◌∷◌, ◌==◌, arith,
  All, inl, inr, Option-cases, filled,
}
use mathlib.Core.Path.{subst}
use restaurant_management_ba.Model.{TenantContext}
use restaurant_management_ba.Exec.{transaction, Result-cases}
use restaurant_management_ba.Store.{find_first, find_many, update_many, delete_many, count}
use restaurant_management_ba.Staff.Rows.{Staff, StaffEnv, Role, Permission}
use restaurant_management_ba.Staff.Employees.{is_role}
use restaurant_management_ba.Staff.Roles.{
  is_assigned, invalidate_all, invalidate_assigned, replace_grants, grant, grants_of, rename,
  update_role, update_role_row, delete_role, delete_role_row, lowered,
}
use restaurant_management_ba.Staff.Cached.{
  IsCoherent, find_first-update_off, find_first-delete_off, find_many-delete_off,
  find_many-append_off,
}
use restaurant_management_ba.Staff.Access.{get_employee_permissions}
use restaurant_management_ba.Staff.Employees.{
  EmployeeChange, update_employee, change_password, update_employee_role, soft_delete_employee,
}
use restaurant_management_ba.Staff.Coherent.{
  get_employee_permissions-IsCoherent, Written, Written-IsCoherent, update_employee-Written,
  change_password-Written, update_employee_role-Written, soft_delete_employee-Written,
}
use restaurant_management_ba.Staff.Regranted.{Regrants, HasOwnRole, regranted}

grants_of-off :
    (r id j : ℕ) (ps : List Permission)
    → j ≢ id
    → All (λ g. (g.role_id == j) ≡ false) (grants_of r id ps)
grants_of-off r id j [] n = tt
grants_of-off r id j (p ∷ ps) n = (ground (arith, n), grants_of-off r id j ps n)

replaced :
    (r id : ℕ) (n : Option String) (d : Option (Option String)) (keys : Option (List String))
    (s : Staff)
    → Regrants id s (
        replace_grants r id keys
          (record s { roles = update_many (is_role r id) (rename n d) s.roles }))
unfolding replace_grants grant
replaced r id n d none s = record {
  employees = refl;
  permissions = refl;
  roles = λ j m.
      find_first-update_off (λ z. z.id == j) (is_role r id) (rename n d) s.roles
        (λ z k. ground (arith, m, k)) (λ z k. ground (arith, m, k));
  grants = λ j m. refl;
}
replaced r id n d (some keys) s = record {
  employees = refl;
  permissions = refl;
  roles = λ j m.
      find_first-update_off (λ z. z.id == j) (is_role r id) (rename n d) s.roles
        (λ z k. ground (arith, m, k)) (λ z k. ground (arith, m, k));
  grants = λ j m.
      find_many-append_off (λ g. g.role_id == j)
        (delete_many (λ g. g.role_id == id && g.restaurant_id == r) s.role_permissions) _
        (grants_of-off r id j _ m)
      ∙ find_many-delete_off (λ g. g.role_id == j) (λ g. g.role_id == id && g.restaurant_id == r)
          s.role_permissions (λ g k. ground (arith, m, k));
}

replaced-cache :
    (r id : ℕ) (keys : Option (List String)) (s : Staff)
    → (replace_grants r id keys s).cache ≡ s.cache
unfolding replace_grants grant
replaced-cache r id none s = refl
replaced-cache r id (some keys) s = refl

module _ (env : StaffEnv) (ctx : TenantContext) (id : ℕ) (s : Staff) where
  update_role-cases :
      (name : Option String) (d : Option (Option String)) (keys : Option (List String))
      → ((update_role env ctx id name d keys s).1 ≡ s)
        ⊎ ((y : Role) × (n : Option String) × (find_first (is_role ctx.restaurant_id id) s.roles
              ≡ some y)
            × ((update_role env ctx id name d keys s).1
                ≡ invalidate_assigned ctx.restaurant_id id (
                    replace_grants ctx.restaurant_id id keys (record s {
                      roles = update_many (is_role ctx.restaurant_id id) (rename n d) s.roles;
                    }))))
  unfolding update_role update_role_row transaction
  update_role-cases name d keys =
      elim (Option-cases (find_first (is_role ctx.restaurant_id id) s.roles)) [
        | inl e ↦ inl (ground (arith, e))
        | inr (y, e) ↦ elim (Result-cases (update_role env ctx id name d keys s).0) [
          | inr (x, m) ↦ inl (ground (arith, e, m))
          | inl (v, m) ↦ inr (y, lowered env (filled name), e, ground (arith, e, m))
        ]
      ]

  delete_role-cases :
      ((delete_role ctx id s).1 ≡ s)
      ⊎ ((y : Role) × (find_first (is_role ctx.restaurant_id id) s.roles ≡ some y)
          × ((delete_role ctx id s).1
              ≡ invalidate_all
                  (find_many (is_assigned ctx.restaurant_id id) s.employees)
                  (delete_role_row ctx.restaurant_id id s))
          × (count (λ e. e.role_id == id) s.employees ≡ 0))
  unfolding delete_role
  delete_role-cases = elim (Option-cases (find_first (is_role ctx.restaurant_id id) s.roles)) [
    | inl e ↦ inl (ground (arith, e))
    | inr (y, e) ↦ elim (Result-cases (delete_role ctx id s).0) [
      | inr (x, m) ↦ inl (ground (arith, e, m))
      | inl (v, m) ↦ inr (y, e, ground (arith, e, m), ground (arith, e, m))
    ]
  ]

deleted : (r id : ℕ) (s : Staff) → Regrants id s (delete_role_row r id s)
unfolding delete_role_row
deleted r id s = record {
  employees = refl;
  permissions = refl;
  roles = λ j m.
      find_first-delete_off (λ z. z.id == j) (is_role r id) s.roles (λ z k. ground (arith, m, k));
  grants = λ j m.
      find_many-delete_off (λ g. g.role_id == j) (λ g. g.role_id == id) s.role_permissions
        (λ g k. ground (arith, m, k));
}

deleted-cache : (r id : ℕ) (s : Staff) → (delete_role_row r id s).cache ≡ s.cache
unfolding delete_role_row
deleted-cache r id s = refl

-- The requests of a caller that read permissions or change employees and roles.
pub data StaffRequest : Type 0 where
  read : ℕ → ℕ → StaffRequest
  change : ℕ → EmployeeChange → StaffRequest
  new_password : ℕ → Option String → String → StaffRequest
  assign : ℕ → ℕ → StaffRequest
  remove : ℕ → StaffRequest
  rewrite : ℕ → Option String → Option (Option String) → Option (List String) → StaffRequest
  drop : ℕ → StaffRequest

unfoldable pub serve_staff : StaffEnv → TenantContext → StaffRequest → Staff → Staff
unfolding get_employee_permissions update_employee change_password update_employee_role
    soft_delete_employee update_role delete_role
serve_staff env ctx (read e r) s = (get_employee_permissions env e r s).1
serve_staff env ctx (change id d) s = (update_employee env ctx id d s).1
serve_staff env ctx (new_password id current new) s = (change_password env ctx id current new s).1
serve_staff env ctx (assign id role) s = (update_employee_role ctx id role s).1
serve_staff env ctx (remove id) s = (soft_delete_employee env ctx id s).1
serve_staff env ctx (rewrite id name d keys) s = (update_role env ctx id name d keys s).1
serve_staff env ctx (drop id) s = (delete_role ctx id s).1

one-Written : (id r : ℕ) (s t : Staff) → (t ≡ s) ⊎ Written id r s t → IsCoherent s → IsCoherent t
one-Written id r s t (inl e) h = subst IsCoherent (sym e) h
one-Written id r s t (inr w) h = Written-IsCoherent id r s t w h

-- Reading permissions, changing, removing or giving a role to an employee, a new password, and changing
-- or deleting a role all leave a cache whose entries say what the tables say, whether they succeed or
-- fail, if the cache was so before and the role of every employee is one of the employee's restaurant.
pub serve_staff-IsCoherent :
    (env : StaffEnv) (ctx : TenantContext) (q : StaffRequest) (s : Staff)
    → All (HasOwnRole s.roles) s.employees
    → IsCoherent s
    → IsCoherent (serve_staff env ctx q s)
unfolding serve_staff invalidate_assigned
serve_staff-IsCoherent env ctx (read e r) s own h = get_employee_permissions-IsCoherent env e r s h
serve_staff-IsCoherent env ctx (change id d) s own h =
    one-Written id ctx.restaurant_id s _ (update_employee-Written env ctx id s d) h
serve_staff-IsCoherent env ctx (new_password id current new) s own h =
    one-Written id ctx.restaurant_id s _ (change_password-Written env ctx id s current new) h
serve_staff-IsCoherent env ctx (assign id role) s own h =
    one-Written id ctx.restaurant_id s _ (update_employee_role-Written env ctx id s role) h
serve_staff-IsCoherent env ctx (remove id) s own h =
    one-Written id ctx.restaurant_id s _ (soft_delete_employee-Written env ctx id s) h
serve_staff-IsCoherent env ctx (rewrite id name d keys) s own h =
    elim (update_role-cases env ctx id s name d keys) [
      | inl e ↦ subst IsCoherent (sym e) h
      | inr (y, n, f, e) ↦
          let r = ctx.restaurant_id in
          let t =
            replace_grants r id keys
              (record s { roles = update_many (is_role r id) (rename n d) s.roles }) in
          let w = replaced r id n d keys s in
          let same : invalidate_assigned r id t
              ≡ invalidate_all (find_many (is_assigned r id) s.employees) t =
            ap (λ es. invalidate_all (find_many (is_assigned r id) es) t) w.employees in
          subst IsCoherent (sym (e ∙ same))
            (regranted r id s t y f own w (replaced-cache r id keys _) h)
    ]
serve_staff-IsCoherent env ctx (drop id) s own h = elim (delete_role-cases env ctx id s) [
  | inl e ↦ subst IsCoherent (sym e) h
  | inr (y, f, e, _) ↦
      let r = ctx.restaurant_id in
      subst IsCoherent (sym e) (
        regranted r id s (delete_role_row r id s) y f own (deleted r id s) (deleted-cache r id s) h)
]
