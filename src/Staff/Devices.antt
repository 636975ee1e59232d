-- ===== src/Staff/Devices.antt =====
-- login: an account is active on one device at a time, and its refresh token is good for a refresh.
use Prim.Native.String.{String}
use text.Mathlib.Text.{◌==◌ as str_eq}
use restaurant_management_ba.Base.{
  ℕ, ◌≡◌, refl, sym, ap, ◌∙◌, Bool, true, false, not, ◌&&◌, none, some, List, [], ◌∷◌, ◌==◌, arith,
  All, All-append, inl, inr, Bool-cases, Option-cases,
}
use mathlib.Core.Path.{subst}
use text.Mathlib.TextEquality.{eq_iff}
use restaurant_management_ba.Store.{find_first, update_many, count, All-update_many}
use restaurant_management_ba.Exec.{ok, bind_rule, then_pure, ◌>>=◌}
use restaurant_management_ba.Staff.Rows.{Staff, StaffEnv, Employee, LoginSession, LoginStatus}
use restaurant_management_ba.Staff.Login.{
  Tokens, login, find_employee_by_email_for_login, leave_other_device, open_session, issue_tokens,
  tokens_of, role_name, sign_in, is_signed_in, is_on_device, is_on_other, force_logout_employee,
  update_session_refresh_hash, insert_session, is_login, set_hash, ended_at,
}

-- The employee is signed in on no other device.
abbrev pub OnlyAt : ℕ → ℕ → String → List LoginSession → Type 0
OnlyAt r e d xs = All (λ x. is_on_other r e d x ≡ false) xs

none_other :
    (r e : ℕ) (d : String) (xs : List LoginSession)
    → find_first (is_on_other r e d) xs ≡ none
    → OnlyAt r e d xs
unfolding find_first
none_other r e d [] h = tt
none_other r e d (x ∷ xs) h = (ground arith, none_other r e d xs (ground arith))

all_ended :
    (env : StaffEnv) (r e : ℕ) (d : String) (xs : List LoginSession)
    → OnlyAt r e d
        (update_many (is_signed_in r e) (ended_at LoginStatus.force_logged_out env.now) xs)
unfolding update_many
all_ended env r e d [] = tt
all_ended env r e d (x ∷ xs) = (ground arith, all_ended env r e d xs)

leave_other_device-OnlyAt :
    (env : StaffEnv) (e : Employee) (d : String) (force : Bool) (s : Staff)
    → (leave_other_device env e d force s).0 ≡ ok tt
    → OnlyAt e.restaurant_id e.id d (leave_other_device env e d force s).1.sessions
unfolding leave_other_device force_logout_employee
leave_other_device-OnlyAt env e d force s h =
    elim (Option-cases (find_first (is_on_other e.restaurant_id e.id d) s.sessions)) [
      | inl n ↦ rw (leave_other_device, n) (none_other e.restaurant_id e.id d s.sessions n)
      | inr (x, n) ↦
          let forced : force ≡ true = ground (arith, h, n) in
          rw (leave_other_device, n, forced) (all_ended env e.restaurant_id e.id d s.sessions)
    ]

update_hash-OnlyAt :
    (r e : ℕ) (d : String) (r' id : ℕ) (hash : String) (s : Staff)
    → OnlyAt r e d s.sessions
    → OnlyAt r e d (update_session_refresh_hash r' id hash s).1.sessions
unfolding update_session_refresh_hash
update_hash-OnlyAt r e d r' id hash s h =
    elim (Bool-cases
      (0 == count (λ x. str_eq x.refresh_token_hash hash && not (x.id == id)) s.sessions)) [
        | inl c ↦
            rw (update_session_refresh_hash, c)
              (All-update_many (λ x. is_on_other r e d x ≡ false) (is_login r' id) (set_hash hash)
                s.sessions (λ x k. k) h)
        | inr c ↦ rw (update_session_refresh_hash, c) h
      ]

insert_session-OnlyAt :
    (r e : ℕ) (d : String) (x : LoginSession) (s : Staff)
    → is_on_other r e d x ≡ false
    → OnlyAt r e d s.sessions
    → OnlyAt r e d (insert_session x s).1.sessions
unfolding insert_session
insert_session-OnlyAt r e d x s own h =
    elim (Bool-cases
      (0 == count (λ y. str_eq y.refresh_token_hash x.refresh_token_hash) s.sessions)) [
        | inr c ↦ rw (insert_session, c) h
        | inl c ↦
            rw (insert_session, c)
              (All-append (λ y. is_on_other r e d y ≡ false) s.sessions (x ∷ []) h (own, tt))
      ]

open_session-OnlyAt :
    (env : StaffEnv) (e : Employee) (d ip hash : String) (s : Staff)
    → OnlyAt e.restaurant_id e.id d s.sessions
    → OnlyAt e.restaurant_id e.id d (open_session env e d ip hash s).1.sessions
unfolding open_session
open_session-OnlyAt env e d ip hash s h =
    elim (Option-cases (find_first (is_on_device e.restaurant_id e.id d) s.sessions)) [
      | inr (x, n) ↦
          rw (open_session, n)
            (then_pure (λ s'. OnlyAt e.restaurant_id e.id d s'.sessions)
              (update_session_refresh_hash e.restaurant_id x.id hash) x.id s
              (update_hash-OnlyAt e.restaurant_id e.id d e.restaurant_id x.id hash s h))
      | inl n ↦
          rw (open_session, n)
            (then_pure (λ s'. OnlyAt e.restaurant_id e.id d s'.sessions) (insert_session _)
              (env.next_session s) s
              (insert_session-OnlyAt e.restaurant_id e.id d _ s
                (ground (arith, (eq_iff d d).1 refl)) h))
    ]

issue_tokens-OnlyAt :
    (env : StaffEnv) (r e : ℕ) (d : String) (r' id : ℕ) (w : Employee) (s : Staff)
    → OnlyAt r e d s.sessions
    → OnlyAt r e d (issue_tokens env r' id w s).1.sessions
unfolding issue_tokens
issue_tokens-OnlyAt env r e d r' id w s h =
    let tokens = tokens_of env r' id w (role_name w.role_id s) in
    let hash = env.hash_token tokens.refresh_token in
    then_pure (λ s'. OnlyAt r e d s'.sessions) (update_session_refresh_hash r' id hash) tokens s
      (update_hash-OnlyAt r e d r' id hash s h)

sign_in-OnlyAt :
    (env : StaffEnv) (e : Employee) (d ip : String) (force : Bool) (s : Staff) (t : Tokens)
    → (sign_in env e d ip force s).0 ≡ ok t
    → OnlyAt e.restaurant_id e.id d (sign_in env e d ip force s).1.sessions
unfolding sign_in
sign_in-OnlyAt env e d ip force s t =
    let hash = env.hash_token (
      env.sign_refresh env.now
        (record { session_id = none; restaurant_id = e.restaurant_id; employee_id = e.id })) in
    let issue = λ (id : ℕ). issue_tokens env e.restaurant_id id e in
    let start = open_session env e d ip hash in
    bind_rule (λ o. o.0 ≡ ok t → OnlyAt e.restaurant_id e.id d o.1.sessions)
      (leave_other_device env e d force) (λ _. start >>= issue) s
      (λ a s₁ m₁.
        let left : OnlyAt e.restaurant_id e.id d s₁.sessions =
          subst (λ o. o.0 ≡ ok tt → OnlyAt e.restaurant_id e.id d o.1.sessions) m₁
            (leave_other_device-OnlyAt env e d force s) refl in
        bind_rule (λ o. o.0 ≡ ok t → OnlyAt e.restaurant_id e.id d o.1.sessions) start issue s₁
          (λ id s₂ m₂ _. issue_tokens-OnlyAt env e.restaurant_id e.id d e.restaurant_id id e s₂ (
            subst (λ o. OnlyAt e.restaurant_id e.id d o.1.sessions) m₂
              (open_session-OnlyAt env e d ip hash s₁ left)))
          (λ w s' _ k. absurd cc))
      (λ w s' _ k. absurd cc)

-- After a login that returns, an employee was found by the e-mail address, the password was that
-- employee's, and every session in which the employee is still signed in is on the device of the login.
pub login-OnlyAt :
    (env : StaffEnv) (email password device ip : String) (force : Bool) (s : Staff) (t : Tokens)
    → (login env email password device ip force s).0 ≡ ok t
    → (e : Employee) × (find_employee_by_email_for_login env email s ≡ some e)
      × (env.verify_password password e.password_hash ≡ true)
      × OnlyAt e.restaurant_id e.id device (login env email password device ip force s).1.sessions
unfolding login
login-OnlyAt env email password device ip force s t h =
    elim (Option-cases (find_employee_by_email_for_login env email s)) [
      | inl n ↦ absurd (ground (arith, h, n))
      | inr (e, n) ↦ elim (Bool-cases (env.verify_password password e.password_hash)) [
        | inr v ↦ absurd (ground (arith, h, n, v))
        | inl v ↦
            let out : login env email password device ip force s ≡ sign_in env e device ip force s =
              rw (login, n, v) refl in
            (
              e,
              n,
              v,
              rw out (sign_in-OnlyAt env e device ip force s t (ap (λ o. o.0) (sym out) ∙ h)),
            )
      ]
    ]
