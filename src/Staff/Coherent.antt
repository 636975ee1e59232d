-- ===== src/Staff/Coherent.antt =====
-- The cache of permissions: every operation on employees and roles leaves it in agreement with the tables.
use Prim.Native.String.{String}
use restaurant_management_ba.Base.{
  ℕ, ◌≡◌, ◌⊎◌, refl, sym, ◌∙◌, false, ◌&&◌, Option, ◌==◌, arith, All, All-map, inl, inr,
  Option-cases,
}
use mathlib.Core.Path.{subst}
use restaurant_management_ba.Model.{TenantContext}
use restaurant_management_ba.Exec.{Result-cases}
use restaurant_management_ba.Store.{update_many, delete_many}
use restaurant_management_ba.Staff.Rows.{Staff, StaffEnv, Employee}
use restaurant_management_ba.Staff.Access.{
  fetch_permissions, granted_by, is_working, is_entry, invalidate_employee_permissions, write_cache,
  read_cache, get_employee_permissions,
}
use restaurant_management_ba.Staff.Login.{force_logout_employee}
use restaurant_management_ba.Staff.Employees.{
  EmployeeChange, update_employee, change_password, update_employee_role, soft_delete_employee,
  write_employee, find_employee_by_id, change_employee, check_password, remove_employee,
}
use restaurant_management_ba.Staff.Cached.{
  IsTrue, IsCoherent, SameRoles, fetch-SameRoles, find_first-update_off, delete_many-kept,
}

-- A query that found something is remembered.
pub get_employee_permissions-IsCoherent :
    (env : StaffEnv) (e r : ℕ) (s : Staff)
    → IsCoherent s
    → IsCoherent (get_employee_permissions env e r s).1
unfolding get_employee_permissions write_cache fetch_permissions granted_by
get_employee_permissions-IsCoherent env e r s h = elim (Option-cases (read_cache env e s)) [
  | inr (g, m) ↦ rw (get_employee_permissions, m) h
  | inl m ↦ elim (Option-cases (fetch_permissions e r s)) [
    | inl n ↦ rw (get_employee_permissions, m, n) h
    | inr (g, n) ↦
        rw (get_employee_permissions, m, n)
          (
            (r, n),
            All-map (λ c. IsTrue s c × (is_entry e c ≡ false)) (IsTrue s)
                (delete_many (is_entry e) s.cache) (λ c k. k.0)
                (delete_many-kept (IsTrue s) (is_entry e) s.cache h),
          )
  ]
]

-- What a write of one employee does, when the entry of the employee goes.
pub record Written (id r : ℕ) (s t : Staff) : Type 0 where
  pub data' : Employee → Employee
  pub same_id : (e : Employee) → (data' e).id ≡ e.id
  pub employees :
      t.employees ≡ update_many (λ e. e.id == id && e.restaurant_id == r) data' s.employees
  pub cache : t.cache ≡ delete_many (is_entry id) s.cache
  pub roles : SameRoles s t

pub Written-IsCoherent : (id r : ℕ) (s t : Staff) → Written id r s t → IsCoherent s → IsCoherent t
Written-IsCoherent id r s t w h =
    subst (λ cs. All (IsTrue t) cs) (sym w.cache)
      (All-map (λ c. IsTrue s c × (is_entry id c ≡ false)) (IsTrue t)
        (delete_many (is_entry id) s.cache)
        (λ c k. (
          k.0.0,
          fetch-SameRoles c.employee_id k.0.0 s t w.roles (
                rw w.employees (
                  find_first-update_off (is_working k.0.0 c.employee_id)
                    (λ e. e.id == id && e.restaurant_id == r) w.data' s.employees
                    (λ e m. ground (arith, k.1, m)) (λ e m. ground (arith, k.1, m, w.same_id e))))
              ∙ k.0.1,
        ))
        (delete_many-kept (IsTrue s) (is_entry id) s.cache h))

module _ (env : StaffEnv) (ctx : TenantContext) (id : ℕ) (s : Staff) where
  pub update_employee-Written :
      (d : EmployeeChange)
      → ((update_employee env ctx id d s).1 ≡ s)
        ⊎ Written id ctx.restaurant_id s (update_employee env ctx id d s).1
  unfolding update_employee write_employee find_employee_by_id change_employee force_logout_employee
      invalidate_employee_permissions
  update_employee-Written d = elim (Result-cases (update_employee env ctx id d s).0) [
    | inr (x, e) ↦ inl (ground (arith, e))
    | inl (_, e) ↦ inr (record {
      data' = change_employee d;
      same_id = λ x. refl;
      employees = ground (arith, e);
      cache = ground (arith, e);
      roles = (ground (arith, e), ground (arith, e), ground (arith, e));
    })
  ]

  pub change_password-Written :
      (current : Option String) (new : String)
      → ((change_password env ctx id current new s).1 ≡ s)
        ⊎ Written id ctx.restaurant_id s (change_password env ctx id current new s).1
  unfolding change_password check_password write_employee find_employee_by_id force_logout_employee
      invalidate_employee_permissions
  change_password-Written current new =
      elim (Result-cases (change_password env ctx id current new s).0) [
        | inr (x, e) ↦ inl (ground (arith, e))
        | inl (_, e) ↦ inr (record {
          data' = λ x. record x { password_hash = env.hash_password new };
          same_id = λ x. refl;
          employees = ground (arith, e);
          cache = ground (arith, e);
          roles = (ground (arith, e), ground (arith, e), ground (arith, e));
        })
      ]

  pub update_employee_role-Written :
      (role : ℕ)
      → ((update_employee_role ctx id role s).1 ≡ s)
        ⊎ Written id ctx.restaurant_id s (update_employee_role ctx id role s).1
  unfolding update_employee_role write_employee find_employee_by_id invalidate_employee_permissions
  update_employee_role-Written role = elim (Result-cases (update_employee_role ctx id role s).0) [
    | inr (x, e) ↦ inl (ground (arith, e))
    | inl (_, e) ↦ inr (record {
      data' = λ x. record x { role_id = role };
      same_id = λ x. refl;
      employees = ground (arith, e);
      cache = ground (arith, e);
      roles = (ground (arith, e), ground (arith, e), ground (arith, e));
    })
  ]

  pub soft_delete_employee-Written :
      ((soft_delete_employee env ctx id s).1 ≡ s)
      ⊎ Written id ctx.restaurant_id s (soft_delete_employee env ctx id s).1
  unfolding soft_delete_employee write_employee find_employee_by_id force_logout_employee
      invalidate_employee_permissions
  soft_delete_employee-Written = elim (Result-cases (soft_delete_employee env ctx id s).0) [
    | inr (x, e) ↦ inl (ground (arith, e))
    | inl (_, e) ↦ inr (record {
      data' = remove_employee env.now;
      same_id = λ x. refl;
      employees = ground (arith, e);
      cache = ground (arith, e);
      roles = (ground (arith, e), ground (arith, e), ground (arith, e));
    })
  ]
