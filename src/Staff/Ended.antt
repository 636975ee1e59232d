-- ===== src/Staff/Ended.antt =====
-- Sessions that end: what a deletion, a suspension, a new password or a forced logout does to the tokens
-- of an employee, and how a refresh token is good once.
use Prim.Native.String.{String}
use text.Mathlib.Text.{◌==◌ as str_eq}
use restaurant_management_ba.Base.{
  ℕ, ◌≤◌, ◌≡◌, refl, sym, ap, ◌∙◌, Bool, true, false, not, ◌&&◌, Option, none, some, List, [], ◌∷◌,
  ◌==◌, arith, inl, inr, Bool-cases, Option-cases,
}
use restaurant_management_ba.Model.{TenantContext}
use restaurant_management_ba.Store.{find_first, update_many, count}
use restaurant_management_ba.Exec.{bind_ok, pure, On, ok, err, said, authentication}
use restaurant_management_ba.Staff.Rows.{
  Staff, StaffEnv, Employee, LoginSession, LoginStatus, Claims, Caller, RefreshPayload,
}
use restaurant_management_ba.Staff.Access.{invalidate_employee_permissions}
use restaurant_management_ba.Staff.Login.{
  Tokens, has_hash, is_login, set_hash, refresh, working_employee, issue_tokens, tokens_of,
  role_name, update_session_refresh_hash, find_active_session_by_refresh_hash, is_signed_in,
  is_login_of, caller_of, force_logout_employee, ended_at, force_logout, authenticate,
}
use restaurant_management_ba.Staff.Employees.{
  EmployeeChange, leaves, soft_delete_employee, update_employee, change_password, write_employee,
  find_employee_by_id, check_password,
}

-- What puts an employee out.
pub data Departure : Type 0 where
  deletion : Departure
  suspension : EmployeeChange → Departure
  new_password : Option String → String → Departure
  forced : Departure

unfoldable pub depart : StaffEnv → TenantContext → ℕ → Departure → On Staff (Unit {0})
unfolding soft_delete_employee update_employee change_password force_logout
depart env ctx id deletion = soft_delete_employee env ctx id
depart env ctx id (suspension d) = update_employee env ctx id d
depart env ctx id (new_password current new) = change_password env ctx id current new
depart env ctx id forced = force_logout env ctx.restaurant_id ctx.employee_id id

-- A change of an employee puts the employee out if it takes the active status away.
abbrev pub PutsOut : Departure → Type 0
PutsOut (suspension d) = leaves d.status ≡ true
PutsOut deletion = Unit
PutsOut (new_password current new) = Unit
PutsOut forced = Unit

-- The sessions of the employee, ended.
abbrev put_out : StaffEnv → TenantContext → ℕ → Staff → List LoginSession
put_out env ctx id s =
    update_many (is_signed_in ctx.restaurant_id id) (ended_at LoginStatus.force_logged_out env.now)
      s.sessions

depart_sessions :
    (env : StaffEnv) (ctx : TenantContext) (id : ℕ) (d : Departure) (s : Staff)
    → PutsOut d
    → (depart env ctx id d s).0 ≡ ok tt
    → (depart env ctx id d s).1.sessions ≡ put_out env ctx id s
unfolding depart soft_delete_employee update_employee change_password force_logout write_employee
    check_password force_logout_employee invalidate_employee_permissions find_employee_by_id
depart_sessions env ctx id deletion s p h = ground arith
depart_sessions env ctx id (suspension d) s p h = ground arith
depart_sessions env ctx id (new_password current new) s p h = ground arith
depart_sessions env ctx id forced s p h = ground arith

nobody :
    (env : StaffEnv) (p : Caller) (xs : List LoginSession)
    → find_first (is_login_of p) (
        update_many
          (is_signed_in p.restaurant_id p.employee_id)
          (ended_at LoginStatus.force_logged_out env.now)
          xs)
      ≡ none
unfolding find_first update_many
nobody env p [] = refl
nobody env p (x ∷ xs) = ground (arith, nobody env p xs)

-- Once an employee was deleted, or lost the active status, or has a new password, or was logged out by
-- force, no access token of the employee authenticates, whatever the time and whichever session it is of.
pub authenticate-depart :
    (env env' : StaffEnv) (ctx : TenantContext) (d : Departure) (s : Staff) (token : String)
    (claims : Claims) (p : Caller)
    → PutsOut d
    → (depart env ctx p.employee_id d s).0 ≡ ok tt
    → env'.verify_access token ≡ some claims
    → caller_of claims ≡ some p
    → p.restaurant_id ≡ ctx.restaurant_id
    → let t = (depart env ctx p.employee_id d s).1 in
      authenticate env' (some token) t
      ≡ (err (authentication (said "Session expired or force logged out")), t)
unfolding authenticate
authenticate-depart env env' ctx d s token claims p out h v of_token same =
    let t = (depart env ctx p.employee_id d s).1 in
    let gone : find_first (is_login_of p) t.sessions ≡ none =
      rw (depart_sessions env ctx p.employee_id d s out h, ← same) (nobody env p s.sessions) in
    rw (authenticate, v, of_token, gone) refl

no_hash :
    (r : ℕ) (h new : String) (p : LoginSession → Bool) (xs : List LoginSession)
    → str_eq new h ≡ false
    → count (λ y. str_eq y.refresh_token_hash h) xs ≡ 0
    → find_first (has_hash r h) (update_many p (set_hash new) xs) ≡ none
unfolding find_first update_many count
no_hash r h new p [] e c = refl
no_hash r h new p (x ∷ xs) e c = ground (arith, no_hash r h new p xs e)

hash_gone :
    (r : ℕ) (h new : String) (xs : List LoginSession) (x : LoginSession)
    → str_eq new h ≡ false
    → count (λ y. str_eq y.refresh_token_hash h) xs ≤ 1
    → find_first (has_hash r h) xs ≡ some x
    → find_first (has_hash r h) (update_many (is_login x.restaurant_id x.id) (set_hash new) xs)
      ≡ none
unfolding find_first update_many count
hash_gone r h new [] x e c f = refl
hash_gone r h new (y ∷ ys) x e c f = elim (Bool-cases (has_hash r h y)) [
  | inl m ↦
      let same : y ≡ x = ground (arith, m, f) in
      ground (arith, m, e, same, no_hash r h new (is_login x.restaurant_id x.id) ys e)
  | inr m ↦ ground (arith, m, e, hash_gone r h new ys x e)
]

-- Tokens that are returned have their hash in the session's row.
issue_tokens_ok :
    (env : StaffEnv) (r id : ℕ) (e : Employee) (s : Staff) (t : Tokens)
    → (issue_tokens env r id e s).0 ≡ ok t
    → (issue_tokens env r id e s).1.sessions
      ≡ update_many (is_login r id) (set_hash (env.hash_token t.refresh_token)) s.sessions
unfolding issue_tokens update_session_refresh_hash
issue_tokens_ok env r id e s t h =
    let tokens = tokens_of env r id e (role_name e.role_id s) in
    let hash = env.hash_token tokens.refresh_token in
    elim (Bool-cases
      (0 == count (λ x. str_eq x.refresh_token_hash hash && not (x.id == id)) s.sessions)) [
        | inr c ↦ absurd (ground (arith, h, c))
        | inl c ↦
            let same : tokens ≡ t = ground (arith, h, c) in
            let after : Staff = record s {
              sessions = update_many (is_login r id) (set_hash hash) s.sessions;
            } in
            let written : update_session_refresh_hash r id hash s ≡ (ok tt, after) =
              rw (update_session_refresh_hash, c) refl in
            rw (← same) (
              ap (λ o. o.1.sessions)
                (bind_ok (update_session_refresh_hash r id hash) (λ _. pure tokens) s after tt
                  written))
      ]

refresh_refused :
    (env : StaffEnv) (token : String) (s : Staff) (p : RefreshPayload)
    → env.verify_refresh token ≡ some p
    → find_active_session_by_refresh_hash (env.hash_token token) p.restaurant_id s ≡ none
    → refresh env (some token) s
      ≡ (err (authentication (said "Invalid or revoked refresh token")), s)
unfolding refresh
refresh_refused env token s p v f = rw (refresh, v, f) refl

-- A refresh that returns replaces its token: refreshing with the old token again, at any time at which it
-- still verifies, fails as revoked and changes nothing, given that no two sessions have the hash of the
-- old token and that the new token has another hash.
pub refresh_once :
    (env : StaffEnv) (later : ℕ) (token : String) (s : Staff) (t : Tokens)
    → count (λ y. str_eq y.refresh_token_hash (env.hash_token token)) s.sessions ≤ 1
    → (refresh env (some token) s).0 ≡ ok t
    → str_eq (env.hash_token t.refresh_token) (env.hash_token token) ≡ false
    → let s' = (refresh env (some token) s).1 in
      refresh (record env { now = later }) (some token) s'
      ≡ (err (authentication (said "Invalid or revoked refresh token")), s')
unfolding refresh
refresh_once env later token s t unique h other = elim (Option-cases (env.verify_refresh token)) [
  | inl n ↦ absurd (ground (arith, h, n))
  | inr (p, v) ↦
      elim (Option-cases
        (find_active_session_by_refresh_hash (env.hash_token token) p.restaurant_id s)) [
          | inl n ↦ absurd (ground (arith, h, v, n))
          | inr (x, f) ↦ elim (Option-cases (working_employee x s)) [
            | inl n ↦ absurd (ground (arith, h, v, f, n))
            | inr (e, w) ↦
                let out : refresh env (some token) s ≡ issue_tokens env x.restaurant_id x.id e s =
                  rw (refresh, v, f, w) refl in
                let rows =
                  issue_tokens_ok env x.restaurant_id x.id e s t (ap (λ o. o.0) (sym out) ∙ h) in
                let gone : find_active_session_by_refresh_hash (env.hash_token token)
                      p.restaurant_id (refresh env (some token) s).1
                    ≡ none =
                  rw (find_active_session_by_refresh_hash, out, rows)
                    (hash_gone p.restaurant_id (env.hash_token token)
                      (env.hash_token t.refresh_token) s.sessions x other unique f) in
                refresh_refused (record env { now = later }) token (refresh env (some token) s).1 p
                  v gone
          ]
        ]
]
