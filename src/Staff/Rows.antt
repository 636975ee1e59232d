-- ===== src/Staff/Rows.antt =====
-- The rows of restaurants, employees, roles and login sessions, with the entries of the cache of
-- permissions, and what the code takes from outside: the clock, identifiers, tokens and password hashes.
use Prim.Native.String.{String}
use restaurant_management_ba.Base.{ℕ, Bool, Option, List}

pub data EmployeeStatus : Type 0 where
  active suspended inactive : EmployeeStatus

pub data LoginStatus : Type 0 where
  active ended force_logged_out : LoginStatus

pub record Restaurant : Type 0 where
  pub id : ℕ
  pub name : String
  pub slug : String

pub record StaffBranch : Type 0 where
  pub id : ℕ
  pub restaurant_id : ℕ
  pub name : String
  pub is_main : Bool

pub record Role : Type 0 where
  pub id : ℕ
  pub restaurant_id : ℕ
  pub name : String
  pub description : Option String
  pub is_system : Bool

pub record Permission : Type 0 where
  pub id : ℕ
  pub key : String

pub record RolePermission : Type 0 where
  pub restaurant_id : ℕ
  pub role_id : ℕ
  pub permission_id : ℕ

pub record Employee : Type 0 where
  pub id : ℕ
  pub restaurant_id : ℕ
  pub branch_id : ℕ
  pub role_id : ℕ
  pub name : String
  pub email : String
  pub phone : Option String
  pub password_hash : String
  pub status : EmployeeStatus
  pub deleted_at : Option ℕ

pub record BranchAccess : Type 0 where
  pub restaurant_id : ℕ
  pub employee_id : ℕ
  pub branch_id : ℕ

-- `model Session`
pub record LoginSession : Type 0 where
  pub id : ℕ
  pub restaurant_id : ℕ
  pub employee_id : ℕ
  pub device : String
  pub ip_address : String
  pub status : LoginStatus
  pub refresh_token_hash : String
  pub logout_at : Option ℕ

-- What getEmployeePermissions returns.
pub record Granted : Type 0 where
  pub role_name : String
  pub is_system : Bool
  pub permissions : List String

-- The entry `permissions:${employeeId}` of the cache.
pub record CacheEntry : Type 0 where
  pub employee_id : ℕ
  pub granted : Granted

pub record Staff : Type 0 where
  pub restaurants : List Restaurant
  pub branches : List StaffBranch
  pub roles : List Role
  pub permissions : List Permission
  pub role_permissions : List RolePermission
  pub employees : List Employee
  pub accesses : List BranchAccess
  pub sessions : List LoginSession
  pub cache : List CacheEntry

-- The payload of a refresh token; login signs one without a session first.
pub record RefreshPayload : Type 0 where
  pub session_id : Option ℕ
  pub restaurant_id : ℕ
  pub employee_id : ℕ

pub record AccessPayload : Type 0 where
  pub session_id : ℕ
  pub restaurant_id : ℕ
  pub branch_id : ℕ
  pub employee_id : ℕ
  pub role : String

-- What a verified access token says; a field may be missing.
pub record Claims : Type 0 where
  pub session_id : Option ℕ
  pub restaurant_id : Option ℕ
  pub branch_id : Option ℕ
  pub employee_id : Option ℕ
  pub role : Option String

-- The tenant context of a request.
pub record Caller : Type 0 where
  pub restaurant_id : ℕ
  pub branch_id : Option ℕ
  pub employee_id : ℕ
  pub role : Option String
  pub session_id : ℕ

pub record StaffEnv : Type 0 where
  pub now : ℕ
  -- `cuid()`, for the next row of the table
  pub next_session : Staff → ℕ
  pub next_employee : Staff → ℕ
  pub next_role : Staff → ℕ
  -- jsonwebtoken; a token depends on the time of its signing
  pub sign_access : ℕ → AccessPayload → String
  pub verify_access : String → Option Claims
  pub sign_refresh : ℕ → RefreshPayload → String
  pub verify_refresh : String → Option RefreshPayload
  -- SHA-256 and bcrypt
  pub hash_token : String → String
  pub hash_password : String → String
  pub verify_password : String → String → Bool
  -- `String.prototype.toLowerCase`
  pub to_lower : String → String
  -- whether Redis gives an entry that was set: it may have expired
  pub is_kept : CacheEntry → Bool
