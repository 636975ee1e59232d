-- ===== src/Staff/Scenario.antt =====
-- The data of the examples: a restaurant with a waiter, who may take orders and give discounts.
use text.Mathlib.Text.{◌==◌ as str_eq}
use restaurant_management_ba.Base.{
  ℕ, suc, true, false, none, some, [], ◌∷◌, ◌==◌, sum_of, if◌then◌else◌,
}
use restaurant_management_ba.Staff.Rows.{
  Staff, StaffEnv, Employee, EmployeeStatus, LoginSession, LoginStatus, Claims, Caller,
}

abbrev pub sami : Employee
sami = record {
  id = 4;
  restaurant_id = 1;
  branch_id = 2;
  role_id = 7;
  name = "Sami";
  email = "sami@cafe.test";
  phone = none;
  password_hash = "lemon";
  status = EmployeeStatus.active;
  deleted_at = none;
}

-- Signed in on another device.
abbrev pub old_session : LoginSession
old_session = record {
  id = 1;
  restaurant_id = 1;
  employee_id = 4;
  device = "tablet";
  ip_address = "10.0.0.1";
  status = LoginStatus.active;
  refresh_token_hash = "first";
  logout_at = none;
}

abbrev pub cafe : Staff
cafe = record {
  restaurants = record { id = 1; name = "Cafe"; slug = "cafe" } ∷ [];
  branches = record { id = 2; restaurant_id = 1; name = "Main"; is_main = true } ∷ [];
  roles =
      record { id = 7; restaurant_id = 1; name = "waiter"; description = none; is_system = false }
      ∷ [];
  permissions =
      record { id = 1; key = "orders.source_cashier" }
      ∷ record { id = 2; key = "orders.discount" }
      ∷ [];
  role_permissions =
      record { restaurant_id = 1; role_id = 7; permission_id = 1 }
      ∷ record { restaurant_id = 1; role_id = 7; permission_id = 2 }
      ∷ [];
  employees = sami ∷ [];
  accesses = [];
  sessions = old_session ∷ [];
  cache = [];
}

abbrev pub access : Claims
access = record {
  session_id = some 1;
  restaurant_id = some 1;
  branch_id = some 2;
  employee_id = some 4;
  role = some "waiter";
}

abbrev pub waiter_context : Caller
waiter_context = record {
  restaurant_id = 1;
  branch_id = some 2;
  employee_id = 4;
  role = some "waiter";
  session_id = 1;
}

-- Tokens that name the waiter; the second is signed from the instant 5 on.
abbrev pub clock_at : ℕ → StaffEnv
clock_at now = record {
  now = now;
  next_session = λ s. suc (sum_of (λ x. x.id) s.sessions);
  next_employee = λ s. suc (sum_of (λ x. x.id) s.employees);
  next_role = λ s. suc (sum_of (λ x. x.id) s.roles);
  sign_access = λ t p. "access";
  verify_access = λ t. some access;
  sign_refresh = λ t p. if t == 5 then "second" else "first";
  verify_refresh = λ t. some (record { session_id = some 1; restaurant_id = 1; employee_id = 4 });
  hash_token = λ t. t;
  hash_password = λ p. p;
  verify_password = λ p h. str_eq p h;
  to_lower = λ s. s;
  is_kept = λ c. true;
}
