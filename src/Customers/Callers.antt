-- ===== src/Customers/Callers.antt =====
-- findOrCreateCustomerByPhone: how a caller is found again.
use Prim.Native.String.{String}
use text.Mathlib.Text.{◌==◌ as str_eq}
use text.Mathlib.TextEquality.{eq_iff}
use restaurant_management_ba.Base.{
  ℕ, ◌≡◌, ◌≢◌, ◌⊎◌, refl, sym, ap, ◌∙◌, true, false, Option, none, some, List, [], ◌∷◌, ◌++◌, arith,
  inl, inr, Option-cases,
}
use restaurant_management_ba.Model.{TenantContext}
use restaurant_management_ba.Exec.{
  pure, on_violation, gets, ◌>>=◌, On, Result, Error, ok, err, unique_violation, bind_ok, bind_err,
  transaction, transaction_ok, transaction_err, on_violation_ok, on_violation_err,
}
use restaurant_management_ba.Store.{find_first, find_first-append_none}
use restaurant_management_ba.Customers.Rows.{
  Customer, People, PeopleEnv, is_reached, find_customer_by_phone,
}
use restaurant_management_ba.Customers.Change.{
  create_row, caller_row, reach_or_create, find_or_create_customer_by_phone,
}
use restaurant_management_ba.Customers.Phones.{CanHave, create_row-cases}

-- A read after a statement failed gives what it would give, or an error.
abbrev pub IsRead : (On People (Option Customer) → On People (Option Customer)) → Type 0
IsRead after =
    (m : On People (Option Customer)) (s : People)
    → (after m s ≡ m s) ⊎ ((e : Error) × (after m s ≡ (err e, s)))

last_reached :
    (r : ℕ) (p : String) (rows : List Customer) (c : Customer)
    → find_first (is_reached r p) rows ≡ none
    → is_reached r p c ≡ true
    → find_first (is_reached r p) (rows ++ (c ∷ [])) ≡ some c
unfolding find_first
last_reached r p rows c h e = find_first-append_none (is_reached r p) rows (c ∷ []) h ∙ rw e refl

module _ (env : PeopleEnv) (after : On People (Option Customer) → On People (Option Customer))
    (ctx : TenantContext) (phone : String) (name : Option String) (s : People) where
  abbrev call : Result (Option Customer) × People
  call = find_or_create_customer_by_phone env after ctx phone name s

  abbrev body : On People (Option Customer)
  body = reach_or_create env after ctx phone name

  abbrev pub caller : Customer
  caller = caller_row ctx phone name (env.next_customer s)

  call-body : str_eq phone "" ≡ false → call ≡ transaction body s
  unfolding find_or_create_customer_by_phone
  call-body filled = rw filled refl

  abbrev make : On People (Option Customer)
  make = create_row caller (phone ∷ []) >>= λ c. pure (some c)

  abbrev read_again : On People (Option Customer)
  read_again = after (gets (find_customer_by_phone ctx phone))

  pub body_found :
      (c : Customer) → find_customer_by_phone ctx phone s ≡ some c → body s ≡ (ok (some c), s)
  unfolding reach_or_create
  body_found c e = rw (reach_or_create, e) refl

  body-none : find_customer_by_phone ctx phone s ≡ none → body s ≡ on_violation make read_again s
  unfolding reach_or_create
  body-none e = rw (reach_or_create, e) refl

  pub body_made :
      (s' : People)
      → find_customer_by_phone ctx phone s ≡ none
      → create_row caller (phone ∷ []) s ≡ (ok caller, s')
      → body s ≡ (ok (some caller), s')
  body_made s' e m =
      body-none e
      ∙ on_violation_ok make read_again s s' (some caller)
          (bind_ok (create_row caller (phone ∷ [])) (λ c. pure (some c)) s s' caller m)

  pub body_failed :
      find_customer_by_phone ctx phone s ≡ none
      → create_row caller (phone ∷ []) s ≡ (err unique_violation, s)
      → body s ≡ read_again s
  body_failed e m =
      body-none e
      ∙ on_violation_err make read_again s s
          (bind_err (create_row caller (phone ∷ [])) (λ c. pure (some c)) s s unique_violation m)

  pub call_blank : str_eq phone "" ≡ true → call ≡ (ok none, s)
  unfolding find_or_create_customer_by_phone
  call_blank blank = rw blank refl

  -- The call, by how its transaction ends.
  pub call_ok :
      (v : Option Customer) (s' : People)
      → str_eq phone "" ≡ false
      → body s ≡ (ok v, s')
      → call ≡ (ok v, s')
  call_ok v s' filled e = call-body filled ∙ transaction_ok body s s' v e

  pub call_err :
      (w : Error) (s' : People) → str_eq phone "" ≡ false → body s ≡ (err w, s') → call ≡ (err w, s)
  call_err w s' filled e = call-body filled ∙ transaction_err body s s' w e

  abbrev pub IsReached : Type 0
  IsReached =
      (c : Customer) × (call.0 ≡ ok (some c))
      × (find_customer_by_phone ctx phone call.1 ≡ some c)
      × ((find_customer_by_phone ctx phone s ≡ some c)
          ⊎ CanHave ctx.restaurant_id phone (phone ∷ []) s)

  abbrev pub IsRefused : Type 0
  IsRefused =
      ((c : Customer) → call.0 ≢ ok (some c))
      × (call.1 ≡ s)
      × (find_customer_by_phone ctx phone s ≡ none)
      × ¬ (CanHave ctx.restaurant_id phone (phone ∷ []) s)

  -- A call with a number that is not empty ends in one of two ways. Either it returns a customer, whom the
  -- number then reaches, and whom it reached before unless the number was on no customer of the
  -- restaurant, a deleted one included, and on no list. Or it returns no customer and changes nothing, and
  -- the number reaches nobody but is on a deleted customer or on a list. A read after a statement that
  -- failed gives what it would give, or an error.
  pub find_or_create_customer_by_phone-cases :
      IsRead after → str_eq phone "" ≡ false → IsReached ⊎ IsRefused
  unfolding find_customer_by_phone caller_row
  find_or_create_customer_by_phone-cases is_read filled =
      elim (Option-cases (find_customer_by_phone ctx phone s)) [
        | inr (c, e) ↦
            let out = call_ok (some c) s filled (body_found c e) in
            inl
              (c, ap (λ x. x.0) out, ap (λ x. find_customer_by_phone ctx phone x.1) out ∙ e, inl e)
        | inl e ↦ elim (create_row-cases caller (phone ∷ []) s (tt, tt)) [
          | inl (can, made, rows) ↦
              let s' = (create_row caller (phone ∷ []) s).1 in
              let out = call_ok (some caller) s' filled (body_made s' e (ap (λ r. (r, s')) made)) in
              inl (
                caller,
                ap (λ x. x.0) out,
                ap (λ x. find_customer_by_phone ctx phone x.1) out
                    ∙ ap (λ rs. find_first (is_reached ctx.restaurant_id phone) rs) rows
                    ∙ last_reached ctx.restaurant_id phone s.customers caller e
                        (ground (arith, (eq_iff phone phone).1 refl)),
                inr can,
              )
          | inr (failed, cannot) ↦ elim (is_read (gets (find_customer_by_phone ctx phone)) s) [
            | inl r ↦
                let out =
                  call_ok none s filled (body_failed e failed ∙ r ∙ ap (λ v. (ok v, s)) e) in
                inr
                  (λ c m. let no = sym (ap (λ x. x.0) out) ∙ m in cc, ap (λ x. x.1) out, e, cannot)
            | inr (w, r) ↦
                let out = call_err w s filled (body_failed e failed ∙ r) in
                inr
                  (λ c m. let no = sym (ap (λ x. x.0) out) ∙ m in cc, ap (λ x. x.1) out, e, cannot)
          ]
        ]
      ]
