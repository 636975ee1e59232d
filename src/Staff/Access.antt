-- ===== src/Staff/Access.antt =====
-- Who may do what: getEmployeePermissions and authorizeAny of src/modules/auth/authorize.middleware.js,
-- with withCache of src/shared/utils/cache.js, and requireBranchAccess.
use Prim.Native.String.{String}
use text.Mathlib.Text.{◌==◌ as str_eq}
use restaurant_management_ba.Base.{
  ℕ, Bool, true, false, not, ◌&&◌, ◌||◌, Option, none, some, List, [], ◌∷◌, ◌==◌, is_some,
}
use restaurant_management_ba.Store.{find_first, find_many, delete_many}
use restaurant_management_ba.Exec.{
  On, pure, throw, gets, throw_if, ◌>>=◌, authorization, said, Message,
}
use restaurant_management_ba.Staff.Rows.{
  Staff, StaffEnv, Employee, EmployeeStatus, Role, Permission, RolePermission, Granted, CacheEntry,
  BranchAccess,
}

abbrev pub is_active_status : EmployeeStatus → Bool
is_active_status EmployeeStatus.active = true
is_active_status _ = false

-- `where: { id, restaurantId, deletedAt: null }`
abbrev pub is_employee : ℕ → ℕ → Employee → Bool
is_employee restaurant id e =
    e.id == id && e.restaurant_id == restaurant && not (is_some e.deleted_at)

-- The same with `status: "ACTIVE"`.
abbrev pub is_working : ℕ → ℕ → Employee → Bool
is_working restaurant id e = is_employee restaurant id e && is_active_status e.status

-- `rp.permission.key` of the rows of the role.
unfoldable pub role_keys : List Permission → List RolePermission → List String
role_keys ps [] = []
role_keys ps (r ∷ rs) =
    let rest = role_keys ps rs in
    elim (find_first (λ p. p.id == r.permission_id) ps) [ none ↦ rest | some p ↦ p.key ∷ rest ]

unfoldable pub granted_by : Role → Staff → Granted
unfolding role_keys
granted_by role s = record {
  role_name = role.name;
  is_system = role.is_system;
  permissions = role_keys s.permissions (find_many (λ r. r.role_id == role.id) s.role_permissions);
}

-- The query of getEmployeePermissions.
unfoldable pub fetch_permissions : ℕ → ℕ → Staff → Option Granted
unfolding granted_by
fetch_permissions employee restaurant s =
    elim (find_first (is_working restaurant employee) s.employees) [
      | none ↦ none
      | some e ↦ elim (find_first (λ r. r.id == e.role_id) s.roles) [
        | none ↦ none
        | some r ↦ some (granted_by r s)
      ]
    ]

abbrev pub is_entry : ℕ → CacheEntry → Bool
is_entry employee c = c.employee_id == employee

-- `redis.get(key)`
unfoldable pub read_cache : StaffEnv → ℕ → Staff → Option Granted
read_cache env employee s = elim (find_first (λ c. is_entry employee c && env.is_kept c) s.cache) [
  | none ↦ none
  | some c ↦ some c.granted
]

-- `redis.del(key)`
unfoldable pub invalidate_employee_permissions : ℕ → Staff → Staff
unfolding delete_many
invalidate_employee_permissions employee s = record s {
  cache = delete_many (is_entry employee) s.cache;
}

-- `redis.set(key, data)`
unfoldable pub write_cache : ℕ → Granted → Staff → Staff
unfolding delete_many
write_cache employee g s = record s {
  cache = record { employee_id = employee; granted = g } ∷ delete_many (is_entry employee) s.cache;
}

unfoldable pub get_employee_permissions : StaffEnv → ℕ → ℕ → On Staff Granted
unfolding read_cache fetch_permissions write_cache
get_employee_permissions env employee restaurant s = elim (read_cache env employee s) [
  | some g ↦ pure g s
  | none ↦ elim (fetch_permissions employee restaurant s) [
    | none ↦ throw (authorization (said "Employee or role not found")) s
    | some g ↦ pure g (write_cache employee g s)
  ]
]

-- `list.includes(text)`
abbrev pub includes : List String → String → Bool
includes [] k = false
includes (s ∷ ss) k = str_eq s k || includes ss k

-- `keys.some((key) => permissions.includes(key))`
abbrev pub some_included : List String → List String → Bool
some_included ps [] = false
some_included ps (k ∷ ks) = includes ps k || some_included ps ks

-- `isSystem && roleName === "owner"`
abbrev pub is_owner : Granted → Bool
is_owner g = g.is_system && str_eq g.role_name "owner"

-- `join("', '")`
unfoldable pub quoted : List String → String
quoted [] = ""
quoted (k ∷ []) = k
quoted (k ∷ l ∷ ks) = Prim.Native.String.◌++◌ k (Prim.Native.String.◌++◌ "', '" (quoted (l ∷ ks)))

abbrev pub permission_missing : List String → Message
permission_missing keys =
    Message.said_of "One of '${keys}' permissions is required to perform this action" (quoted keys)

-- authorizeAny for a caller whose context names an employee and a restaurant.
unfoldable pub authorize_any : StaffEnv → List String → ℕ → ℕ → On Staff (Unit {0})
unfolding get_employee_permissions quoted
authorize_any env keys employee restaurant = do
  g ← get_employee_permissions env employee restaurant
  throw_if (not (is_owner g || some_included g.permissions keys))
      (authorization (permission_missing keys))

-- `employee?.branchId === branchId`
abbrev works_at : ℕ → Option Employee → Bool
works_at branch none = false
works_at branch (some e) = e.branch_id == branch

abbrev pub is_access : ℕ → ℕ → ℕ → BranchAccess → Bool
is_access restaurant employee branch a =
    a.restaurant_id == restaurant && a.employee_id == employee && a.branch_id == branch

unfoldable pub require_branch_access : StaffEnv → ℕ → ℕ → ℕ → On Staff (Unit {0})
unfolding get_employee_permissions
require_branch_access env branch employee restaurant = do
  g ← get_employee_permissions env employee restaurant
  home ← gets (λ s. works_at branch (find_first (is_employee restaurant employee) s.employees))
  extra ← gets (λ s. is_some (find_first (is_access restaurant employee branch) s.accesses))
  throw_if (not (is_owner g || includes g.permissions "branches.manage" || home || extra))
      (authorization (said "You do not have access to this branch"))
