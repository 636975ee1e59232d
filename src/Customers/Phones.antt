-- ===== src/Customers/Phones.antt =====
-- Phone numbers: when a customer is created.
use Prim.Native.String.{String}
use text.Mathlib.Text.{◌==◌ as str_eq}
use restaurant_management_ba.Base.{
  ℕ, ◌≡◌, ◌⊎◌, refl, ap, ◌∙◌, Bool, true, false, none, List, [], ◌∷◌, ◌++◌, ◌==◌, arith, All,
  All-map, inl, inr, Bool-cases, is_some, if◌then◌else◌, trim,
}
use restaurant_management_ba.Model.{TenantContext}
use restaurant_management_ba.Exec.{
  pure, ◌>>=◌, On, ok, err, unique_violation, bind_ok, bind_err, transaction_ok, transaction_err,
}
use restaurant_management_ba.Store.{find_first, count, count-append, count_le, find_first-none}
use restaurant_management_ba.Customers.Rows.{
  Customer, CustomerPhone, People, PeopleEnv, has_phone, is_reached, find_customer_by_phone,
}
use restaurant_management_ba.Customers.Names.{trim_phones}
use restaurant_management_ba.Customers.Change.{
  CreatePayload, phone_taken, insert_customer, insert_phones, create_row, is_phone, new_phone_row,
  all_phones, new_customer, create_customer,
}
use restaurant_management_ba.Customers.Numbers.{Distinct, dedupe-Distinct, trim_phones-kept}

-- No list of the restaurant has the number.
abbrev pub IsFree : ℕ → List CustomerPhone → String → Type 0
IsFree r rows p = count (is_phone r p) rows ≡ 0

IsFree-append :
    (r id : ℕ) (b : Bool) (p q : String) (rows : List CustomerPhone)
    → str_eq p q ≡ false
    → IsFree r rows q
    → IsFree r (rows ++ (new_phone_row r id b p ∷ [])) q
unfolding count
IsFree-append r id b p q rows e f =
    ground (arith, f, e, count-append (is_phone r q) rows (new_phone_row r id b p ∷ []))

IsFree-append-All :
    (r id : ℕ) (b : Bool) (p : String) (ps : List String) (rows : List CustomerPhone)
    → All (λ q. str_eq p q ≡ false) ps
    → All (IsFree r rows) ps
    → All (IsFree r (rows ++ (new_phone_row r id b p ∷ []))) ps
IsFree-append-All r id b p [] rows d f = tt
IsFree-append-All r id b p (q ∷ qs) rows d f =
    (IsFree-append r id b p q rows d.0 f.0, IsFree-append-All r id b p qs rows d.1 f.1)

insert_phones_ok :
    (r id : ℕ) (b : Bool) (ps : List String) (s : People)
    → Distinct ps
    → All (IsFree r s.phones) ps
    → (insert_phones r id b ps s).0 ≡ ok tt
unfolding insert_phones
insert_phones_ok r id b [] s d f = refl
insert_phones_ok r id b (p ∷ ps) s d f = ground (
  arith,
  f.0,
  insert_phones_ok r id false ps (record s { phones = s.phones ++ (new_phone_row r id b p ∷ []) })
      d.1 (IsFree-append-All r id b p ps s.phones d.0 f.1),
)

insert_phones-IsFree :
    (r id : ℕ) (b : Bool) (ps : List String) (s : People)
    → (insert_phones r id b ps s).0 ≡ ok tt
    → All (IsFree r s.phones) ps
unfolding insert_phones
insert_phones-IsFree r id b [] s h = tt
insert_phones-IsFree r id b (p ∷ ps) s h =
    let here : IsFree r s.phones p = ground arith in
    (
      here,
      All-map (IsFree r (s.phones ++ (new_phone_row r id b p ∷ []))) (IsFree r s.phones) ps
          (λ q f.
            ground (arith, f, count-append (is_phone r q) s.phones (new_phone_row r id b p ∷ [])))
          (insert_phones-IsFree r id false ps
            (record s { phones = s.phones ++ (new_phone_row r id b p ∷ []) })
            (ground (arith, here))),
    )

insert_phones-cases :
    (r id : ℕ) (b : Bool) (ps : List String) (s : People)
    → ((insert_phones r id b ps s).0 ≡ ok tt)
      ⊎ ((insert_phones r id b ps s).0 ≡ err unique_violation)
unfolding insert_phones
insert_phones-cases r id b [] s = inl refl
insert_phones-cases r id b (p ∷ ps) s = elim (Bool-cases (0 == count (is_phone r p) s.phones)) [
  | inr n ↦ inr (ground (arith, n))
  | inl n ↦
      elim (insert_phones-cases r id false ps
        (record s { phones = s.phones ++ (new_phone_row r id b p ∷ []) })) [
          | inl e ↦ inl (ground (arith, n, e))
          | inr e ↦ inr (ground (arith, n, e))
        ]
]

insert_phones-customers :
    (r id : ℕ) (b : Bool) (ps : List String) (s : People)
    → (insert_phones r id b ps s).0 ≡ ok tt
    → (insert_phones r id b ps s).1.customers ≡ s.customers
unfolding insert_phones
insert_phones-customers r id b [] s h = refl
insert_phones-customers r id b (p ∷ ps) s h = ground (
  arith,
  h,
  insert_phones-customers r id false ps
      (record s { phones = s.phones ++ (new_phone_row r id b p ∷ []) }),
)

-- The number and the list are free in the restaurant.
abbrev pub CanHave : ℕ → String → List String → People → Type 0
CanHave r phone phones s =
    (count (has_phone r phone) s.customers ≡ 0) × All (IsFree r s.phones) phones

abbrev pub Created : Customer → List String → People → Type 0
Created c phones s =
    CanHave c.restaurant_id c.phone phones s
    × ((create_row c phones s).0 ≡ ok c)
    × ((create_row c phones s).1.customers ≡ s.customers ++ (c ∷ []))

insert_customer_lem :
    (c : Customer) (s : People)
    → insert_customer c s ≡ (
        if 0 == count (has_phone c.restaurant_id c.phone) s.customers
        then (ok tt, record s { customers = s.customers ++ (c ∷ []) })
        else (err unique_violation, s))
unfolding insert_customer
insert_customer_lem c s = refl

pub create_row-cases :
    (c : Customer) (phones : List String) (s : People)
    → Distinct phones
    → Created c phones s
      ⊎ ((create_row c phones s ≡ (err unique_violation, s))
          × ¬ (CanHave c.restaurant_id c.phone phones s))
unfolding create_row
create_row-cases c phones s d =
    let add = insert_phones c.restaurant_id c.id true phones in
    let last : Unit {0} → On People Customer = λ _. pure c in
    let rest : Unit {0} → On People Customer = λ _. add >>= last in
    elim (Bool-cases (0 == count (has_phone c.restaurant_id c.phone) s.customers)) [
      | inr n ↦
          let ins : insert_customer c s ≡ (err unique_violation, s) =
            rw (insert_customer_lem c s, n) refl in
          inr (
            transaction_err (insert_customer c >>= rest) s s unique_violation
                (bind_err (insert_customer c) rest s s unique_violation ins),
            λ k. ground (arith, n, k.0),
          )
      | inl n ↦
          let s' : People = record s { customers = s.customers ++ (c ∷ []) } in
          let ins : insert_customer c s ≡ (ok tt, s') = rw (insert_customer_lem c s, n) refl in
          elim (insert_phones-cases c.restaurant_id c.id true phones s') [
            | inl e ↦
                let whole : create_row c phones s ≡ (ok c, (add s').1) =
                  transaction_ok (insert_customer c >>= rest) s (add s').1 c (
                    bind_ok (insert_customer c) rest s s' tt ins
                    ∙ bind_ok add last s' (add s').1 tt (ap (λ r. (r, (add s').1)) e)) in
                inl (
                  (ground arith, insert_phones-IsFree c.restaurant_id c.id true phones s' e),
                  ap (λ x. x.0) whole,
                  ap (λ x. x.1.customers) whole
                      ∙ insert_phones-customers c.restaurant_id c.id true phones s' e,
                )
            | inr e ↦ inr (
              transaction_err (insert_customer c >>= rest) s (add s').1 unique_violation (
                  bind_ok (insert_customer c) rest s s' tt ins
                  ∙ bind_err add last s' (add s').1 unique_violation (ap (λ r. (r, (add s').1)) e)),
              λ k. ground (arith, e, insert_phones_ok c.restaurant_id c.id true phones s' d k.1),
            )
          ]
    ]

-- A number on no row is on no row that is not deleted.
pub unreached :
    (r : ℕ) (p : String) (rows : List Customer)
    → count (has_phone r p) rows ≡ 0
    → find_first (is_reached r p) rows ≡ none
unreached r p rows h =
    find_first-none (is_reached r p) rows
      (omega (arith, h, count_le (is_reached r p) (has_phone r p) rows (λ x m. ground arith)))

module _ (env : PeopleEnv) (ctx : TenantContext) (payload : CreatePayload) (s : People) where
  abbrev number : String
  number = trim payload.phone

  abbrev row : Customer
  row = new_customer ctx payload (env.next_customer s)

  -- A creation succeeds exactly when no customer of the restaurant, a deleted one included, has the
  -- trimmed number, and none of the numbers, trimmed and each once, is on a list; otherwise it fails with
  -- the conflict for the number and changes nothing.
  pub create_customer-cases :
      (((c : Customer) × ((create_customer env ctx payload s).0 ≡ ok c))
        × CanHave ctx.restaurant_id number (all_phones payload) s)
      ⊎ ((create_customer env ctx payload s ≡ (err (phone_taken number), s))
          × ¬ (CanHave ctx.restaurant_id number (all_phones payload) s))
  unfolding create_customer all_phones new_customer find_customer_by_phone
  create_customer-cases = elim (Bool-cases (is_some (find_customer_by_phone ctx number s))) [
    | inl e ↦ inr (
      ground (arith, e),
      λ k. ground (arith, e, unreached ctx.restaurant_id number s.customers k.0),
    )
    | inr e ↦
        elim (create_row-cases row (trim_phones (all_phones payload)) s
          (rw (trim_phones-kept _) (dedupe-Distinct _))) [
            | inl (can, made, _) ↦
                inl ((row, ground (arith, e, made)), rw (← trim_phones-kept _) can)
            | inr (failed, cannot) ↦
                inr (ground (arith, e, failed), rw (← trim_phones-kept _) cannot)
          ]
  ]
