-- ===== src/Customers/Examples.antt =====
-- The theorems on customers at a restaurant with two customers, one of them deleted.
use restaurant_management_ba.Base.{
  ℕ, suc, ◌≡◌, ◌⊎◌, refl, inr, sum_of, ◌<◌, none, some, true, false, List, [], ◌∷◌, arith, ◌==◌,
  Option, is_space, trim, split_spaces, join_spaces,
}
use restaurant_management_ba.Model.{TenantContext}
use restaurant_management_ba.Exec.{On, ok, err, transaction, business_rule, said}
use restaurant_management_ba.Store.{find_first, count}
use restaurant_management_ba.Customers.Rows.{
  Customer, CustomerAddress, People, PeopleEnv, find_customer_by_phone,
}
use restaurant_management_ba.Customers.Change.{
  CreatePayload, phone_taken, create_customer, all_phones, find_or_create_customer_by_phone,
  reach_or_create, caller_row, create_row, insert_customer, insert_phones,
}
use restaurant_management_ba.Customers.Addresses.{AddressPayload}
use restaurant_management_ba.Customers.Phones.{CanHave, create_customer-cases}
use restaurant_management_ba.Customers.Callers.{
  IsRead, IsReached, IsRefused, find_or_create_customer_by_phone-cases,
}
use restaurant_management_ba.Customers.Again.{
  Call, serve_call, serve_calls, find_or_create_customer_by_phone_again,
}
use restaurant_management_ba.Customers.Settled.{
  AddressRequest, add, change, delete, IsPeople, serve_addresses, serve_addresses-IsPeople,
}

abbrev desk : TenantContext
desk = record { restaurant_id = 1; employee_id = some 3 }

abbrev mona : Customer
mona = record {
  id = 1;
  restaurant_id = 1;
  first_name = some "Mona";
  last_name = none;
  name = "Mona";
  phone = "0100";
  notes = none;
  deleted_at = none;
}

-- A customer who was deleted, with the number still in the row.
abbrev former : Customer
former = record mona { id = 2; phone = "0200"; deleted_at = some 5 }

abbrev home : CustomerAddress
home = record {
  id = 0;
  restaurant_id = 1;
  customer_id = 1;
  label = "HOME";
  street = none;
  city = none;
  state = none;
  postal_code = none;
  is_default = true;
  deleted_at = none;
}

abbrev people : People
people = record { customers = mona ∷ former ∷ []; phones = []; addresses = home ∷ [] }

-- The next identifiers.
abbrev counter : PeopleEnv
counter = record {
  now = 9;
  next_customer = λ s. suc (sum_of (λ c. c.id) s.customers);
  next_address = λ s. suc (sum_of (λ a. a.id) s.addresses);
}

absent_address :
    (n : ℕ) (rows : List CustomerAddress)
    → sum_of (λ a. a.id) rows < n
    → count (λ a. a.id == n) rows ≡ 0
unfolding count
absent_address n [] h = refl
absent_address n (a ∷ rows) h = ground (arith, absent_address n rows (omega arith))

people-IsPeople : IsPeople people
unfolding count
people-IsPeople = record {
  keyed_customers = (refl, (refl, tt));
  keyed = (refl, tt);
  own = ((λ e. refl, (λ e. refl, tt)), tt);
  settled = λ r c. ground arith;
}

abbrev work : AddressPayload
work = record {
  label = some "WORK";
  street = some "5 Nile St";
  city = none;
  state = none;
  postal_code = none;
  is_default = some true;
}

-- Another address becomes the default, is made an ordinary one, and the first one is deleted.
abbrev requests : List AddressRequest
requests =
    add counter desk 1 work
    ∷ change desk 1 1 (record work { is_default = some false })
    ∷ delete counter desk 1 0
    ∷ []

serve_addresses-IsPeople_example : IsPeople (serve_addresses requests people)
serve_addresses-IsPeople_example =
    serve_addresses-IsPeople requests people
      (λ s. absent_address _ s.addresses (omega arith), (tt, (tt, tt))) people-IsPeople

abbrev nadia : CreatePayload
nadia = record {
  names = record { first_name = some " Nadia "; last_name = some "Said"; name = none };
  phone = " 0300 ";
  phones = some ("0300" ∷ "0301 " ∷ []);
  notes = none;
}

create_customer-cases_example :
    (((c : Customer) × ((create_customer counter desk nadia people).0 ≡ ok c))
      × CanHave 1 (trim nadia.phone) (all_phones nadia) people)
    ⊎ ((create_customer counter desk nadia people ≡ (err (phone_taken (trim nadia.phone)), people))
        × ¬ (CanHave 1 (trim nadia.phone) (all_phones nadia) people))
create_customer-cases_example = create_customer-cases counter desk nadia people

-- A database that answers nothing in a transaction after a statement failed.
abbrev refusing : On People (Option Customer) → On People (Option Customer)
refusing m s = (err (business_rule (said "current transaction is aborted")), s)

refusing-IsRead : IsRead refusing
refusing-IsRead m s = inr (business_rule (said "current transaction is aborted"), refl)

find_or_create_customer_by_phone-cases_example :
    IsReached counter refusing desk "0200" none people
    ⊎ IsRefused counter refusing desk "0200" none people
find_or_create_customer_by_phone-cases_example =
    find_or_create_customer_by_phone-cases counter refusing desk "0200" none people refusing-IsRead
      refl

abbrev caller : Customer
caller = caller_row desk "0400" (some " Omar  Ali ") 4

called :
    (find_or_create_customer_by_phone counter refusing desk "0400" (some " Omar  Ali ") people).0
    ≡ ok (some caller)
unfolding find_or_create_customer_by_phone reach_or_create transaction find_customer_by_phone
    find_first create_row insert_customer insert_phones count
called = refl

-- Omar calls twice, and others in between.
abbrev omar_calls : Call
omar_calls = record {
  env = counter;
  after = refusing;
  ctx = desk;
  phone = "0400";
  name = some " Omar  Ali ";
}

abbrev others_call : List Call
others_call =
    record omar_calls { phone = "0500"; name = none } ∷ record omar_calls { phone = "0200" } ∷ []

abbrev omar_calls_again : Call
omar_calls_again = record omar_calls {
  ctx = record { restaurant_id = 1; employee_id = some 8 };
  name = none;
}

abbrev after_calls : People
after_calls = serve_calls others_call (serve_call omar_calls people)

find_or_create_customer_by_phone_again_example :
    find_or_create_customer_by_phone counter refusing
      (record { restaurant_id = 1; employee_id = some 8 })
      "0400"
      none
      after_calls
    ≡ (ok (some caller), after_calls)
find_or_create_customer_by_phone_again_example =
    find_or_create_customer_by_phone_again omar_calls people caller others_call omar_calls_again
      (refusing-IsRead, (refusing-IsRead, (refusing-IsRead, tt))) called refl refl

-- The words of a name, with any spaces between them.
omar_ali : caller.first_name ≡ some "Omar"
unfolding caller_row trim is_space split_spaces join_spaces
omar_ali = refl
