-- ===== src/Customers/Again.antt =====
-- Calls of findOrCreateCustomerByPhone one after the other.
use Prim.Native.String.{String}
use text.Mathlib.Text.{◌==◌ as str_eq}
use restaurant_management_ba.Base.{
  ℕ, ◌≡◌, ◌⊎◌, sym, ap, ◌∙◌, false, Option, none, some, List, [], ◌∷◌, ◌++◌, All, inl, inr,
  Bool-cases, Option-cases,
}
use restaurant_management_ba.Model.{TenantContext}
use restaurant_management_ba.Exec.{On, ok, gets}
use restaurant_management_ba.Store.{find_first, find_first-append}
use restaurant_management_ba.Customers.Rows.{
  Customer, People, PeopleEnv, is_reached, find_customer_by_phone,
}
use restaurant_management_ba.Customers.Change.{create_row, find_or_create_customer_by_phone}
use restaurant_management_ba.Customers.Phones.{create_row-cases}
use restaurant_management_ba.Customers.Callers.{
  IsRead, caller, body_found, body_made, body_failed, call_blank, call_ok, call_err,
  find_or_create_customer_by_phone-cases,
}

-- A call, with what it takes from outside.
pub record Call : Type 0 where
  pub env : PeopleEnv
  pub after : On People (Option Customer) → On People (Option Customer)
  pub ctx : TenantContext
  pub phone : String
  pub name : Option String

unfoldable pub serve_call : Call → People → People
serve_call c s = (find_or_create_customer_by_phone c.env c.after c.ctx c.phone c.name s).1

-- The customers after some calls, one after the other.
unfoldable pub serve_calls : List Call → People → People
serve_calls [] s = s
serve_calls (c ∷ cs) s = serve_calls cs (serve_call c s)

abbrev pub AreRead : List Call → Type 0
AreRead cs = All (λ (c : Call). IsRead c.after) cs

module _ (env : PeopleEnv) (after : On People (Option Customer) → On People (Option Customer))
    (ctx : TenantContext) (phone : String) (name : Option String) (s : People) where
  -- The table is as it was, or has one more row at the end.
  abbrev Grows : People → Type 0
  Grows t = (t.customers ≡ s.customers) ⊎ ((c : Customer) × (t.customers ≡ s.customers ++ (c ∷ [])))

  abbrev ended : People
  ended = (find_or_create_customer_by_phone env after ctx phone name s).1

  unreached_Grows :
      IsRead after
      → str_eq phone "" ≡ false
      → find_customer_by_phone ctx phone s ≡ none
      → Grows ended
  unreached_Grows is_read filled e =
      let new = caller env after ctx phone name s in
      elim (create_row-cases new (phone ∷ []) s (tt, tt)) [
        | inl (_, made, rows) ↦
            let s' = (create_row new (phone ∷ []) s).1 in
            let out =
              call_ok env after ctx phone name s (some new) s' filled
                (body_made env after ctx phone name s s' e (ap (λ r. (r, s')) made)) in
            inr (new, ap (λ x. x.1.customers) out ∙ rows)
        | inr (failed, _) ↦
            let out = body_failed env after ctx phone name s e failed in
            elim (is_read (gets (find_customer_by_phone ctx phone)) s) [
              | inl r ↦ inl (
                  ap (λ x. x.1.customers)
                    (call_ok env after ctx phone name s (find_customer_by_phone ctx phone s) s
                      filled (out ∙ r)))
              | inr (w, r) ↦ inl (
                  ap (λ x. x.1.customers)
                    (call_err env after ctx phone name s w s filled (out ∙ r)))
            ]
      ]

  -- A call leaves the customers as they are, or has one more at the end.
  call_Grows : IsRead after → Grows ended
  call_Grows is_read = elim (Bool-cases (str_eq phone "")) [
    | inl blank ↦ inl (ap (λ x. x.1.customers) (call_blank env after ctx phone name s blank))
    | inr filled ↦ elim (Option-cases (find_customer_by_phone ctx phone s)) [
      | inr (c, e) ↦ inl (
          ap (λ x. x.1.customers)
            (call_ok env after ctx phone name s (some c) s filled
              (body_found env after ctx phone name s c e)))
      | inl e ↦ unreached_Grows is_read filled e
    ]
  ]

-- Whom a number reaches it reaches after more calls.
call_keeps :
    (c : Call) (s : People) (r : ℕ) (phone : String) (x : Customer)
    → IsRead c.after
    → find_first (is_reached r phone) s.customers ≡ some x
    → find_first (is_reached r phone) (serve_call c s).customers ≡ some x
unfolding serve_call
call_keeps c s r phone x is_read h =
    elim (call_Grows c.env c.after c.ctx c.phone c.name s is_read) [
      | inl same ↦ ap (λ xs. find_first (is_reached r phone) xs) same ∙ h
      | inr (y, more) ↦
          ap (λ xs. find_first (is_reached r phone) xs) more
          ∙ find_first-append (is_reached r phone) s.customers (y ∷ []) x h
    ]

calls_keep :
    (cs : List Call) (s : People) (r : ℕ) (phone : String) (x : Customer)
    → AreRead cs
    → find_first (is_reached r phone) s.customers ≡ some x
    → find_first (is_reached r phone) (serve_calls cs s).customers ≡ some x
unfolding serve_calls
calls_keep [] s r phone x all_read h = h
calls_keep (c ∷ cs) s r phone x all_read h =
    calls_keep cs (serve_call c s) r phone x all_read.1 (call_keeps c s r phone x all_read.0 h)

-- Whom a first call returned, a number that is not empty reaches.
returned :
    (c : Call) (s : People) (x : Customer)
    → IsRead c.after
    → (find_or_create_customer_by_phone c.env c.after c.ctx c.phone c.name s).0 ≡ ok (some x)
    → (str_eq c.phone "" ≡ false)
      × (find_first (is_reached c.ctx.restaurant_id c.phone) (serve_call c s).customers ≡ some x)
unfolding serve_call find_customer_by_phone
returned c s x is_read h = elim (Bool-cases (str_eq c.phone "")) [
  | inl e ↦
      let no = sym (ap (λ o. o.0) (call_blank c.env c.after c.ctx c.phone c.name s e)) ∙ h in
      absurd cc
  | inr e ↦
      elim (find_or_create_customer_by_phone-cases c.env c.after c.ctx c.phone c.name s is_read e) [
        | inr (never, _, _, _) ↦ absurd (never x h)
        | inl (x', out, reached, _) ↦
            let both : ok (some x') ≡ ok (some x) = sym out ∙ h in
            let same : some x' ≡ some x = cc in (e, reached ∙ same)
      ]
]

-- Whoever a call returns is returned again by a call with the same number for the same restaurant, by any
-- employee and with any name, and nothing is written, if all that happens to the customers in between is
-- any number of calls, with any numbers and for any restaurants; a read after a statement that failed gives
-- what it would give, or an error.
pub find_or_create_customer_by_phone_again :
    (c : Call) (s : People) (x : Customer) (between : List Call) (d : Call)
    → AreRead (c ∷ between)
    → (find_or_create_customer_by_phone c.env c.after c.ctx c.phone c.name s).0 ≡ ok (some x)
    → d.ctx.restaurant_id ≡ c.ctx.restaurant_id
    → d.phone ≡ c.phone
    → let t = serve_calls between (serve_call c s) in
      find_or_create_customer_by_phone d.env d.after d.ctx d.phone d.name t ≡ (ok (some x), t)
unfolding find_customer_by_phone
find_or_create_customer_by_phone_again c s x between d all_read h same_restaurant same_phone =
    let (filled, reached) = returned c s x all_read.0 h in
    let t = serve_calls between (serve_call c s) in
    let still =
      calls_keep between (serve_call c s) c.ctx.restaurant_id c.phone x all_read.1 reached in
    let found : find_customer_by_phone d.ctx d.phone t ≡ some x =
      rw (same_restaurant, same_phone) still in
    call_ok d.env d.after d.ctx d.phone d.name t (some x) t (rw same_phone filled)
      (body_found d.env d.after d.ctx d.phone d.name t x found)
