-- ===== src/Staff/Employees.antt =====
-- src/modules/employees/employee.service.js with the queries of employee.repository.js. A record that
-- `employee.update` names by identifier and restaurant is there, since the repository has just read it.
use Prim.Native.String.{String}
use text.Mathlib.Text.{◌==◌ as str_eq}
use restaurant_management_ba.Base.{
  ℕ, Bool, true, false, not, ◌&&◌, Option, none, some, [], ◌∷◌, ◌++◌, ◌==◌, is_some, is_id, filled,
  if◌then◌else◌,
}
use restaurant_management_ba.Model.{TenantContext}
use restaurant_management_ba.Store.{find_first, update_many, count}
use restaurant_management_ba.Exec.{
  On, ok, err, pure, gets, modify, or_throw, throw_if, when, ◌>>=◌, ◌>>◌, authentication,
  business_rule, conflict, not_found, unique_violation, said, said_of,
}
use restaurant_management_ba.Staff.Rows.{
  Staff, StaffEnv, Employee, EmployeeStatus, Role, StaffBranch,
}
use restaurant_management_ba.Staff.Access.{
  is_employee, is_active_status, invalidate_employee_permissions,
}
use restaurant_management_ba.Staff.Login.{force_logout_employee}

unfoldable pub find_employee_by_id : TenantContext → ℕ → Staff → Option Employee
find_employee_by_id ctx id s = find_first (is_employee ctx.restaurant_id id) s.employees

unfoldable pub get_employee_by_id : TenantContext → ℕ → On Staff Employee
unfolding find_employee_by_id
get_employee_by_id ctx id = do
  or_throw (← gets (find_employee_by_id ctx id)) (not_found (said "Employee not found"))

abbrev pub is_role : ℕ → ℕ → Role → Bool
is_role restaurant id r = r.id == id && r.restaurant_id == restaurant

abbrev pub is_branch_of : ℕ → ℕ → StaffBranch → Bool
is_branch_of restaurant id b = b.id == id && b.restaurant_id == restaurant

-- `role.isSystem && role.name === "owner"`
abbrev pub is_owner_role : Role → Bool
is_owner_role r = r.is_system && str_eq r.name "owner"

-- The body of createEmployee's request.
pub record NewEmployee : Type 0 where
  pub name : String
  pub email : String
  pub phone : Option String
  pub branch_id : ℕ
  pub role_id : ℕ
  pub password : String

-- The unique index on (restaurant_id, email).
unfoldable pub insert_employee : Employee → On Staff Employee
insert_employee e s =
    if 0 == count (λ x. x.restaurant_id == e.restaurant_id && str_eq x.email e.email) s.employees
    then (ok e, record s { employees = s.employees ++ (e ∷ []) })
    else (err unique_violation, s)

abbrev pub has_address : ℕ → String → Employee → Bool
has_address restaurant email e =
    e.restaurant_id == restaurant && str_eq e.email email && not (is_some e.deleted_at)

unfoldable pub create_employee : StaffEnv → TenantContext → NewEmployee → On Staff Employee
unfolding insert_employee
create_employee env ctx data' = do
  existing ←
      gets (λ s. find_first (has_address ctx.restaurant_id (env.to_lower data'.email)) s.employees)
  throw_if (is_some existing) (
      conflict
        (said_of "Employee with email '${email}' already exists in this restaurant" data'.email))
  role ←
      or_throw (← gets (λ s. find_first (is_role ctx.restaurant_id data'.role_id) s.roles))
        (not_found (said "Target role not found"))
  throw_if (is_owner_role role) (business_rule (said "Cannot create additional owner employees"))
  or_throw (← gets (λ s. find_first (is_branch_of ctx.restaurant_id data'.branch_id) s.branches))
      (not_found (said "Target branch not found"))
  id ← gets env.next_employee
  insert_employee (record {
    id = id;
    restaurant_id = ctx.restaurant_id;
    branch_id = data'.branch_id;
    role_id = data'.role_id;
    name = data'.name;
    email = env.to_lower data'.email;
    phone = filled data'.phone;
    password_hash = env.hash_password data'.password;
    status = EmployeeStatus.active;
    deleted_at = none;
  })

-- `prisma.employee.update` of an employee that the repository finds; `false` if it finds none.
unfoldable pub write_employee : TenantContext → ℕ → (Employee → Employee) → On Staff Bool
unfolding find_employee_by_id
write_employee ctx id f s = elim (find_employee_by_id ctx id s) [
  | none ↦ (ok false, s)
  | some _ ↦ (
    ok true,
    record s {
      employees =
          update_many (λ e. e.id == id && e.restaurant_id == ctx.restaurant_id) f s.employees;
    },
  )
]

-- The body of updateEmployee's request; a phone number may be set to null.
pub record EmployeeChange : Type 0 where
  pub name : Option String
  pub phone : Option (Option String)
  pub branch_id : Option ℕ
  pub status : Option EmployeeStatus

abbrev given : {A : Type 0} → Option A → A → A
given none a = a
given (some b) a = b

unfoldable pub change_employee : EmployeeChange → Employee → Employee
change_employee d e = record e {
  name = given (filled d.name) e.name;
  phone = given d.phone e.phone;
  branch_id = given d.branch_id e.branch_id;
  status = given d.status e.status;
}

-- `data.status && data.status !== "ACTIVE"`
abbrev pub leaves : Option EmployeeStatus → Bool
leaves none = false
leaves (some st) = not (is_active_status st)

-- A branch that a request names is one of the restaurant.
abbrev is_known : TenantContext → Option ℕ → Staff → Bool
is_known ctx none s = true
is_known ctx (some b) s = is_some (find_first (is_branch_of ctx.restaurant_id b) s.branches)

unfoldable pub update_employee : StaffEnv → TenantContext → ℕ → EmployeeChange → On Staff (Unit {0})
unfolding write_employee change_employee force_logout_employee invalidate_employee_permissions
update_employee env ctx id d = do
  known ← gets (is_known ctx d.branch_id)
  throw_if (not known) (not_found (said "Target branch not found"))
  updated ← write_employee ctx id (change_employee d)
  throw_if (not updated) (not_found (said "Employee not found"))
  when (leaves d.status) (modify (force_logout_employee env ctx.restaurant_id id))
  modify (invalidate_employee_permissions id)

-- `verifyPassword(currentPassword, rawEmployee?.passwordHash)`; no hash verifies nothing.
abbrev pub knows_password : StaffEnv → String → Option Employee → Bool
knows_password env password none = false
knows_password env password (some e) = env.verify_password password e.password_hash

-- The check of the caller's own password.
unfoldable pub check_password : StaffEnv → TenantContext → ℕ → Option String → On Staff (Unit {0})
check_password env ctx id current =
    if is_id ctx.employee_id id
    then (do
      password ←
          or_throw (filled current)
            (authentication (said "Current password is required to change your own password"))
      e ← gets (λ s. find_first (is_employee ctx.restaurant_id id) s.employees)
      throw_if (not (knows_password env password e))
          (authentication (said "Current password is incorrect")))
    else pure tt

unfoldable pub change_password :
    StaffEnv → TenantContext → ℕ → Option String → String → On Staff (Unit {0})
unfolding check_password write_employee force_logout_employee invalidate_employee_permissions
change_password env ctx id current new = do
  check_password env ctx id current
  updated ← write_employee ctx id (λ e. record e { password_hash = env.hash_password new })
  throw_if (not updated) (not_found (said "Employee not found"))
  modify (force_logout_employee env ctx.restaurant_id id)
  modify (invalidate_employee_permissions id)

-- updateRole of the service.
unfoldable pub update_employee_role : TenantContext → ℕ → ℕ → On Staff (Unit {0})
unfolding write_employee invalidate_employee_permissions
update_employee_role ctx id role = do
  throw_if (is_id ctx.employee_id id) (business_rule (said "You cannot modify your own role"))
  r ←
      or_throw (← gets (λ s. find_first (is_role ctx.restaurant_id role) s.roles))
        (not_found (said "Target role not found"))
  throw_if (is_owner_role r)
      (business_rule (said "Cannot assign the owner role to another employee"))
  updated ← write_employee ctx id (λ e. record e { role_id = role })
  throw_if (not updated) (not_found (said "Employee not found"))
  modify (invalidate_employee_permissions id)

abbrev pub remove_employee : ℕ → Employee → Employee
remove_employee now e = record e { deleted_at = some now; status = EmployeeStatus.inactive }

-- The repository ends the sessions in the same transaction, and the service once more.
unfoldable pub soft_delete_employee : StaffEnv → TenantContext → ℕ → On Staff (Unit {0})
unfolding write_employee force_logout_employee invalidate_employee_permissions
soft_delete_employee env ctx id = do
  throw_if (is_id ctx.employee_id id) (business_rule (said "You cannot delete your own account"))
  removed ← write_employee ctx id (remove_employee env.now)
  throw_if (not removed) (not_found (said "Employee not found"))
  modify (force_logout_employee env ctx.restaurant_id id)
  modify (invalidate_employee_permissions id)
