-- ===== src/Staff/Roles.antt =====
-- src/modules/roles/role.service.js with the queries of role.repository.js.
use Prim.Native.String.{String}
use text.Mathlib.Text.{◌==◌ as str_eq}
use restaurant_management_ba.Base.{
  ℕ, Bool, false, not, ◌&&◌, ◌||◌, Option, none, some, List, [], ◌∷◌, ◌++◌, ◌==◌, is_some, filled,
  trim, if◌then◌else◌,
}
use restaurant_management_ba.Model.{TenantContext}
use restaurant_management_ba.Store.{find_first, find_many, update_many, delete_many, count}
use restaurant_management_ba.Exec.{
  On, ok, err, pure, gets, modify, or_throw, throw_if, transaction, ◌>>=◌, ◌>>◌, business_rule,
  conflict, not_found, unique_violation, said, said_of,
}
use restaurant_management_ba.Staff.Rows.{
  Staff, StaffEnv, Employee, Role, Permission, RolePermission,
}
use restaurant_management_ba.Staff.Access.{includes, invalidate_employee_permissions}
use restaurant_management_ba.Staff.Employees.{is_role}

-- RESERVED_ROLE_NAMES
abbrev pub is_reserved : String → Bool
is_reserved name = str_eq name "owner" || str_eq name "manager"

abbrev pub has_name : ℕ → String → Role → Bool
has_name restaurant name r = r.restaurant_id == restaurant && str_eq r.name name

-- The unique index on (restaurant_id, name).
unfoldable pub insert_role : Role → On Staff (Unit {0})
insert_role r s =
    if 0 == count (has_name r.restaurant_id r.name) s.roles
    then (ok tt, record s { roles = s.roles ++ (r ∷ []) })
    else (err unique_violation, s)

-- `permissions.map((p) => ({ restaurantId, roleId, permissionId: p.id }))`
abbrev pub grants_of : ℕ → ℕ → List Permission → List RolePermission
grants_of restaurant role [] = []
grants_of restaurant role (p ∷ ps) =
    record { restaurant_id = restaurant; role_id = role; permission_id = p.id }
    ∷ grants_of restaurant role ps

-- The permissions of the catalogue with the given keys, granted to the role.
unfoldable pub grant : ℕ → ℕ → List String → Staff → Staff
grant restaurant role keys s = record s {
  role_permissions =
      s.role_permissions
      ++ grants_of restaurant role (find_many (λ p. includes keys p.key) s.permissions);
}

abbrev or_empty : Option (List String) → List String
or_empty none = []
or_empty (some ks) = ks

unfoldable pub create_role :
    StaffEnv
    → TenantContext
    → String
    → Option String
    → Option (List String)
    → On Staff (Option Role)
unfolding insert_role grant
create_role env ctx name description keys = do
  let normal = env.to_lower (trim name)
  throw_if (is_reserved normal)
      (conflict (said_of "System role name '${name}' is reserved and cannot be created" normal))
  existing ← gets (λ s. find_first (has_name ctx.restaurant_id (env.to_lower normal)) s.roles)
  throw_if (is_some existing)
      (conflict (said_of "Role with name '${name}' already exists in this restaurant" normal))
  id ← gets env.next_role
  transaction (do
    insert_role (record {
      id = id;
      restaurant_id = ctx.restaurant_id;
      name = env.to_lower normal;
      description = filled description;
      is_system = false;
    })
    modify (grant ctx.restaurant_id id (or_empty keys))
    gets (λ s. find_first (is_role ctx.restaurant_id id) s.roles))

abbrev given : {A : Type 0} → Option A → A → A
given none a = a
given (some b) a = b

abbrev pub lowered : StaffEnv → Option String → Option String
lowered env none = none
lowered env (some n) = some (env.to_lower n)

abbrev pub rename : Option String → Option (Option String) → Role → Role
rename name description r = record r {
  name = given name r.name;
  description = given description r.description;
}

-- `tx.role.update`: the unique index refuses the name of another role.
unfoldable pub update_role_row :
    ℕ → ℕ → Option String → Option (Option String) → On Staff (Unit {0})
update_role_row restaurant id name description s =
    let written = record s {
      roles = update_many (is_role restaurant id) (rename name description) s.roles;
    } in
    elim name [
      | none ↦ (ok tt, written)
      | some n ↦
          if 0 == count (λ r. has_name restaurant n r && not (r.id == id)) s.roles
          then (ok tt, written)
          else (err unique_violation, s)
    ]

-- The role's permissions, replaced if the request has a list of keys.
unfoldable pub replace_grants : ℕ → ℕ → Option (List String) → Staff → Staff
unfolding delete_many grant
replace_grants restaurant id none s = s
replace_grants restaurant id (some keys) s = grant restaurant id keys (record s {
  role_permissions =
      delete_many (λ g. g.role_id == id && g.restaurant_id == restaurant) s.role_permissions;
})

-- findAssignedEmployeeIds
abbrev pub is_assigned : ℕ → ℕ → Employee → Bool
is_assigned restaurant role e =
    e.restaurant_id == restaurant && e.role_id == role && not (is_some e.deleted_at)

-- invalidateEmployeesCache
unfoldable pub invalidate_all : List Employee → Staff → Staff
unfolding invalidate_employee_permissions
invalidate_all [] s = s
invalidate_all (e ∷ es) s = invalidate_all es (invalidate_employee_permissions e.id s)

unfoldable pub invalidate_assigned : ℕ → ℕ → Staff → Staff
unfolding invalidate_all
invalidate_assigned restaurant role s =
    invalidate_all (find_many (is_assigned restaurant role) s.employees) s

-- `name.trim().toLowerCase()`, of a name that is given.
abbrev normal_name : StaffEnv → Option String → String
normal_name env none = ""
normal_name env (some n) = env.to_lower (trim n)

-- A name that is empty is no name; one that is given is stored in lower case, untrimmed.
unfoldable pub update_role :
    StaffEnv
    → TenantContext
    → ℕ
    → Option String
    → Option (Option String)
    → Option (List String)
    → On Staff (Option Role)
unfolding update_role_row replace_grants invalidate_assigned
update_role env ctx id name description keys = do
  existing ←
      or_throw (← gets (λ s. find_first (is_role ctx.restaurant_id id) s.roles))
        (not_found (said "Role not found"))
  throw_if existing.is_system (business_rule (said "System roles cannot be modified"))
  let normal = normal_name env (filled name)
  throw_if (is_some (filled name) && is_reserved normal)
      (conflict (said_of "System role name '${name}' is reserved" normal))
  updated ← transaction (do
    update_role_row ctx.restaurant_id id (lowered env (filled name)) description
    modify (replace_grants ctx.restaurant_id id keys)
    gets (λ s. find_first (is_role ctx.restaurant_id id) s.roles))
  modify (invalidate_assigned ctx.restaurant_id id)
  pure updated

-- The row goes with its permissions (onDelete: Cascade).
unfoldable pub delete_role_row : ℕ → ℕ → Staff → Staff
unfolding delete_many
delete_role_row restaurant id s = record s {
  roles = delete_many (is_role restaurant id) s.roles;
  role_permissions = delete_many (λ g. g.role_id == id) s.role_permissions;
}

unfoldable pub delete_role : TenantContext → ℕ → On Staff (Unit {0})
unfolding delete_role_row invalidate_all
delete_role ctx id = do
  existing ←
      or_throw (← gets (λ s. find_first (is_role ctx.restaurant_id id) s.roles))
        (not_found (said "Role not found"))
  throw_if existing.is_system (business_rule (said "System roles cannot be deleted"))
  used ← gets (λ s. count (λ e. e.role_id == id) s.employees)
  throw_if (not (used == 0)) (
      conflict (
        said_of "Cannot delete role '${name}' because it is assigned to active employee(s)"
          existing.name))
  assigned ← gets (λ s. find_many (is_assigned ctx.restaurant_id id) s.employees)
  modify (delete_role_row ctx.restaurant_id id)
  modify (invalidate_all assigned)
