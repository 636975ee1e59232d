-- ===== src/Staff/Examples.antt =====
-- The theorems on the staff at a restaurant with one waiter.
use restaurant_management_ba.Base.{◌≡◌, refl, true, some, arith}
use restaurant_management_ba.Model.{TenantContext}
use restaurant_management_ba.Store.{find_first, count, update_many}
use restaurant_management_ba.Exec.{ok, err, authentication, said}
use restaurant_management_ba.Staff.Rows.{Staff, Employee}
use restaurant_management_ba.Staff.Login.{
  Tokens, login, sign_in, find_employee_by_email_for_login, leave_other_device, open_session,
  issue_tokens, tokens_of, role_name, update_session_refresh_hash, insert_session,
  force_logout_employee, refresh, find_active_session_by_refresh_hash, working_employee,
  authenticate,
}
use restaurant_management_ba.Staff.Devices.{OnlyAt, login-OnlyAt}
use restaurant_management_ba.Staff.Ended.{deletion, depart, authenticate-depart, refresh_once}
use restaurant_management_ba.Staff.Employees.{
  soft_delete_employee, write_employee, find_employee_by_id,
}
use restaurant_management_ba.Store.{find_many}
use restaurant_management_ba.Staff.Access.{
  fetch_permissions, granted_by, role_keys, get_employee_permissions,
}
use restaurant_management_ba.Base.{false, none, ◌∷◌, []}
use restaurant_management_ba.Staff.Scenario.{sami, waiter_context}
use restaurant_management_ba.Staff.Cached.{IsCoherent}
use restaurant_management_ba.Staff.Served.{rewrite, serve_staff, serve_staff-IsCoherent}
use restaurant_management_ba.Staff.Uncached.{answer, get_employee_permissions-answer}
use restaurant_management_ba.Staff.Scenario.{cafe, access, clock_at}

abbrev manager : TenantContext
manager = record { restaurant_id = 1; employee_id = some 2 }

abbrev signed : Tokens
signed = record { access_token = "access"; refresh_token = "second" }

-- A login by force on a phone, with the first device signed in.
abbrev after_login : Staff
after_login = (login (clock_at 5) "sami@cafe.test" "lemon" "phone" "10.0.0.2" true cafe).1

logged_in : (login (clock_at 5) "sami@cafe.test" "lemon" "phone" "10.0.0.2" true cafe).0 ≡ ok signed
unfolding login sign_in find_employee_by_email_for_login leave_other_device open_session
    issue_tokens tokens_of role_name update_session_refresh_hash insert_session
    force_logout_employee find_first count update_many
logged_in = refl

login-OnlyAt_example :
    (e : Employee) × (find_employee_by_email_for_login (clock_at 5) "sami@cafe.test" cafe ≡ some e)
    × ((clock_at 5).verify_password "lemon" e.password_hash ≡ true)
    × OnlyAt e.restaurant_id e.id "phone" after_login.sessions
login-OnlyAt_example =
    login-OnlyAt (clock_at 5) "sami@cafe.test" "lemon" "phone" "10.0.0.2" true cafe signed logged_in

abbrev after_deletion : Staff
after_deletion = (depart (clock_at 5) manager 4 deletion cafe).1

deleted : (depart (clock_at 5) manager 4 deletion cafe).0 ≡ ok tt
unfolding depart soft_delete_employee write_employee find_employee_by_id find_first
deleted = refl

authenticate-depart_example :
    authenticate (clock_at 6) (some "access") after_deletion
    ≡ (err (authentication (said "Session expired or force logged out")), after_deletion)
authenticate-depart_example =
    authenticate-depart (clock_at 5) (clock_at 6) manager deletion cafe "access" access
      waiter_context tt deleted refl refl refl

abbrev after_refresh : Staff
after_refresh = (refresh (clock_at 5) (some "first") cafe).1

refreshed : (refresh (clock_at 5) (some "first") cafe).0 ≡ ok signed
unfolding refresh find_active_session_by_refresh_hash working_employee issue_tokens tokens_of
    role_name update_session_refresh_hash find_first count
refreshed = refl

refresh_once_example :
    refresh (record (clock_at 5) { now = 6 }) (some "first") after_refresh
    ≡ (err (authentication (said "Invalid or revoked refresh token")), after_refresh)
unfolding count
refresh_once_example = refresh_once (clock_at 5) 6 "first" cafe signed (omega arith) refreshed refl

-- The waiter's permissions, cached.
abbrev warm : Staff
warm = record cafe {
  cache =
      record {
        employee_id = 4;
        granted = record {
          role_name = "waiter";
          is_system = false;
          permissions = "orders.source_cashier" ∷ "orders.discount" ∷ [];
        };
      }
      ∷ [];
}

warm-IsCoherent : IsCoherent warm
unfolding fetch_permissions granted_by role_keys find_first find_many
warm-IsCoherent = ((1, refl), tt)

-- The role loses a permission.
serve_staff-IsCoherent_example :
    IsCoherent
      (serve_staff (clock_at 5) manager (rewrite 7 none none (some ("orders.discount" ∷ []))) warm)
serve_staff-IsCoherent_example =
    serve_staff-IsCoherent (clock_at 5) manager
      (rewrite 7 none none (some ("orders.discount" ∷ []))) warm ((λ e. refl, tt), tt)
      warm-IsCoherent

get_employee_permissions-answer_example :
    (get_employee_permissions (clock_at 5) 4 1 warm).0 ≡ answer (fetch_permissions 4 1 warm)
unfolding find_first count
get_employee_permissions-answer_example =
    get_employee_permissions-answer (clock_at 5) 4 1 warm sami (refl, tt) refl warm-IsCoherent
