-- ===== src/Staff/Login.antt =====
-- src/modules/auth/auth.service.js with the queries of auth.repository.js, and authenticate of
-- src/modules/auth/authenticate.middleware.js. The log lines and the audit log are left out.
use Prim.Native.String.{String}
use text.Mathlib.Text.{◌==◌ as str_eq}
use restaurant_management_ba.Base.{
  ℕ, Bool, true, false, not, ◌&&◌, Option, none, some, [], ◌∷◌, ◌++◌, ◌==◌, is_some, is_id, filled,
  if◌then◌else◌,
}
use restaurant_management_ba.Store.{find_first, update_many, count}
use restaurant_management_ba.Exec.{
  On, ok, err, pure, gets, modify, or_throw, throw_if, when, ◌>>=◌, ◌>>◌, authentication,
  business_rule, unique_violation, said,
}
use restaurant_management_ba.Staff.Rows.{
  Staff, StaffEnv, Employee, LoginSession, LoginStatus, Claims, Caller,
}
use restaurant_management_ba.Staff.Access.{is_active_status, invalidate_employee_permissions}

abbrev pub is_open : LoginStatus → Bool
is_open LoginStatus.active = true
is_open _ = false

-- `where: { restaurantId, employeeId, status: "ACTIVE" }`
abbrev pub is_signed_in : ℕ → ℕ → LoginSession → Bool
is_signed_in restaurant employee x =
    x.restaurant_id == restaurant && x.employee_id == employee && is_open x.status

abbrev pub is_on_device : ℕ → ℕ → String → LoginSession → Bool
is_on_device restaurant employee device x =
    is_signed_in restaurant employee x && str_eq x.device device

abbrev pub is_on_other : ℕ → ℕ → String → LoginSession → Bool
is_on_other restaurant employee device x =
    is_signed_in restaurant employee x && not (str_eq x.device device)

-- `where: { id, restaurantId }`
abbrev pub is_login : ℕ → ℕ → LoginSession → Bool
is_login restaurant id x = x.id == id && x.restaurant_id == restaurant

-- `where: { email, deletedAt: null, status: "ACTIVE" }`
abbrev has_email : String → Employee → Bool
has_email email e = str_eq e.email email && not (is_some e.deleted_at) && is_active_status e.status

-- findEmployeeByEmailForLogin, called without a slug: a restaurant where somebody active has the e-mail
-- address, and that employee.
unfoldable pub find_employee_by_email_for_login : StaffEnv → String → Staff → Option Employee
find_employee_by_email_for_login env email s =
    let low = env.to_lower email in
    let of_restaurant = λ (i : ℕ). λ (e : Employee). e.restaurant_id == i && has_email low e in
    elim (find_first (λ r. is_some (find_first (of_restaurant r.id) s.employees)) s.restaurants) [
      | none ↦ none
      | some r ↦ find_first (of_restaurant r.id) s.employees
    ]

abbrev pub ended_at : LoginStatus → ℕ → LoginSession → LoginSession
ended_at st now x = record x { status = st; logout_at = some now }

unfoldable pub force_logout_employee : StaffEnv → ℕ → ℕ → Staff → Staff
force_logout_employee env restaurant employee s = record s {
  sessions =
      update_many (is_signed_in restaurant employee) (ended_at LoginStatus.force_logged_out env.now)
        s.sessions;
}

unfoldable pub end_session : StaffEnv → ℕ → ℕ → Staff → Staff
end_session env restaurant id s = record s {
  sessions =
      update_many (λ x. is_login restaurant id x && is_open x.status)
        (ended_at LoginStatus.ended env.now) s.sessions;
}

abbrev pub set_hash : String → LoginSession → LoginSession
set_hash hash x = record x { refresh_token_hash = hash }

-- The unique index on refresh_token_hash refuses the hash of another session.
unfoldable pub update_session_refresh_hash : ℕ → ℕ → String → On Staff (Unit {0})
update_session_refresh_hash restaurant id hash s =
    if 0 == count (λ x. str_eq x.refresh_token_hash hash && not (x.id == id)) s.sessions
    then (
      ok tt,
      record s { sessions = update_many (is_login restaurant id) (set_hash hash) s.sessions },
    )
    else (err unique_violation, s)

unfoldable pub insert_session : LoginSession → On Staff (Unit {0})
insert_session x s =
    if 0 == count (λ y. str_eq y.refresh_token_hash x.refresh_token_hash) s.sessions
    then (ok tt, record s { sessions = s.sessions ++ (x ∷ []) })
    else (err unique_violation, s)

-- The session of the device, with a first hash: the one there is, or a new one.
unfoldable pub open_session : StaffEnv → Employee → String → String → String → On Staff ℕ
unfolding update_session_refresh_hash insert_session
open_session env e device ip hash s =
    elim (find_first (is_on_device e.restaurant_id e.id device) s.sessions) [
      | some x ↦ (update_session_refresh_hash e.restaurant_id x.id hash >> pure x.id) s
      | none ↦
          let id = env.next_session s in
          (insert_session (record {
            id = id;
            restaurant_id = e.restaurant_id;
            employee_id = e.id;
            device = device;
            ip_address = ip;
            status = LoginStatus.active;
            refresh_token_hash = hash;
            logout_at = none;
          })
              >> pure id)
            s
    ]

-- `employee.role.name`; the foreign key on role_id means that there is such a role.
unfoldable pub role_name : ℕ → Staff → String
role_name id s = elim (find_first (λ r. r.id == id) s.roles) [ none ↦ "" | some r ↦ r.name ]

pub record Tokens : Type 0 where
  pub access_token : String
  pub refresh_token : String

-- The two tokens of a session of the employee, whose role has the given name.
unfoldable pub tokens_of : StaffEnv → ℕ → ℕ → Employee → String → Tokens
tokens_of env restaurant id e role = record {
  access_token = env.sign_access env.now (record {
    session_id = id;
    restaurant_id = restaurant;
    branch_id = e.branch_id;
    employee_id = e.id;
    role = role;
  });
  refresh_token =
      env.sign_refresh env.now
        (record { session_id = some id; restaurant_id = restaurant; employee_id = e.id });
}

-- Tokens are signed, and the refresh token's hash goes into the session's row.
unfoldable pub issue_tokens : StaffEnv → ℕ → ℕ → Employee → On Staff Tokens
unfolding role_name update_session_refresh_hash tokens_of
issue_tokens env restaurant id e s =
    let tokens = tokens_of env restaurant id e (role_name e.role_id s) in
    (update_session_refresh_hash restaurant id (env.hash_token tokens.refresh_token) >> pure tokens)
      s

-- A login at one device at a time.
unfoldable pub leave_other_device : StaffEnv → Employee → String → Bool → On Staff (Unit {0})
unfolding force_logout_employee
leave_other_device env e device force s =
    elim (find_first (is_on_other e.restaurant_id e.id device) s.sessions) [
      | none ↦ (ok tt, s)
      | some x ↦
          if force
          then (ok tt, force_logout_employee env e.restaurant_id e.id s)
          else (err (business_rule (said "This account is already active on another device.")), s)
    ]

-- What follows the checks of a login.
unfoldable pub sign_in : StaffEnv → Employee → String → String → Bool → On Staff Tokens
unfolding leave_other_device open_session issue_tokens
sign_in env e device ip force =
    let first =
      env.sign_refresh env.now
        (record { session_id = none; restaurant_id = e.restaurant_id; employee_id = e.id }) in
    leave_other_device env e device force
    >> (open_session env e device ip (env.hash_token first) >>= λ id.
        issue_tokens env e.restaurant_id id e)

unfoldable pub login : StaffEnv → String → String → String → String → Bool → On Staff Tokens
unfolding find_employee_by_email_for_login sign_in
login env email password device ip force = do
  e ←
      or_throw (← gets (find_employee_by_email_for_login env email))
        (authentication (said "Invalid email or password"))
  throw_if (not (env.verify_password password e.password_hash))
      (authentication (said "Invalid email or password"))
  sign_in env e device ip force

-- `where: { restaurantId, refreshTokenHash, status: "ACTIVE" }`
abbrev pub has_hash : ℕ → String → LoginSession → Bool
has_hash restaurant hash x =
    x.restaurant_id == restaurant && str_eq x.refresh_token_hash hash && is_open x.status

-- The payload of a token that verifies always names a restaurant.
unfoldable pub find_active_session_by_refresh_hash : String → ℕ → Staff → Option LoginSession
find_active_session_by_refresh_hash hash restaurant s =
    find_first (has_hash restaurant hash) s.sessions

-- `session.employee`, if it may go on working.
unfoldable pub working_employee : LoginSession → Staff → Option Employee
working_employee x s = elim (find_first (λ e. e.id == x.employee_id) s.employees) [
  | none ↦ none
  | some e ↦ if is_active_status e.status && not (is_some e.deleted_at) then some e else none
]

unfoldable pub refresh : StaffEnv → Option String → On Staff Tokens
unfolding find_active_session_by_refresh_hash working_employee end_session issue_tokens
refresh env token = do
  t ← or_throw token (authentication (said "Refresh token is required"))
  p ← or_throw (env.verify_refresh t) (authentication (said "Invalid or expired refresh token"))
  x ←
      or_throw (← gets (find_active_session_by_refresh_hash (env.hash_token t) p.restaurant_id))
        (authentication (said "Invalid or revoked refresh token"))
  e ← gets (working_employee x)
  when (not (is_some e)) (modify (end_session env x.restaurant_id x.id))
  worker ← or_throw e (authentication (said "Employee account is inactive or deleted"))
  issue_tokens env x.restaurant_id x.id worker

unfoldable pub logout : StaffEnv → ℕ → ℕ → Staff → Staff
unfolding end_session
logout env restaurant session s = end_session env restaurant session s

-- forceLogout; the caller is `employee` of the restaurant.
unfoldable pub force_logout : StaffEnv → ℕ → Option ℕ → ℕ → On Staff (Unit {0})
unfolding force_logout_employee invalidate_employee_permissions
force_logout env restaurant employee target = do
  throw_if (is_id employee target)
      (business_rule (said "You cannot force logout your active session"))
  modify (force_logout_employee env restaurant target)
  modify (invalidate_employee_permissions target)

-- `where: { id, restaurantId, employeeId, status: "ACTIVE" }`
abbrev pub is_login_of : Caller → LoginSession → Bool
is_login_of p x =
    x.id == p.session_id
    && x.restaurant_id == p.restaurant_id
    && x.employee_id == p.employee_id
    && is_open x.status

-- `req.tenantContext`, if the payload has the fields that it needs.
abbrev pub caller_of : Claims → Option Caller
caller_of claims = elim claims.restaurant_id [
  | none ↦ none
  | some restaurant ↦ elim claims.employee_id [
    | none ↦ none
    | some employee ↦ elim claims.session_id [
      | none ↦ none
      | some session ↦ some (record {
        restaurant_id = restaurant;
        branch_id = claims.branch_id;
        employee_id = employee;
        role = filled claims.role;
        session_id = session;
      })
    ]
  ]
]

-- authenticate, for the token of the request's header or cookie, none where that is missing or empty.
unfoldable pub authenticate : StaffEnv → Option String → On Staff Caller
authenticate env token = do
  t ← or_throw token (authentication (said "Authentication token required"))
  claims ←
      or_throw (env.verify_access t)
        (authentication (said "Invalid or expired authentication token"))
  p ← or_throw (caller_of claims) (authentication (said "Invalid token payload structure"))
  or_throw (← gets (λ s. find_first (is_login_of p) s.sessions))
      (authentication (said "Session expired or force logged out"))
  pure p
