-- ===== src/Customers/Settled.antt =====
-- Any requests on addresses leave every customer with the right number of default addresses.
use restaurant_management_ba.Base.{
  ℕ, ◌≡◌, ◌≢◌, refl, ◌∙◌, Bool, true, false, not, ◌&&◌, ◌||◌, some, List, [], ◌∷◌, ◌==◌, arith, All,
  All-append, All-map, inl, inr, Option-cases, is_some,
}
use restaurant_management_ba.Model.{TenantContext}
use restaurant_management_ba.Store.{
  find_first, find_first_holds, count, update_many, All-find_first, All-update_many, IsKeyed,
  only_found, IsKeyed-append, count-update_many,
}
use restaurant_management_ba.Customers.Rows.{
  Customer, CustomerAddress, People, PeopleEnv, is_customer, is_live_address, is_address,
  find_customer_by_id, find_address_by_id, get_customer_by_id,
}
use restaurant_management_ba.Customers.Addresses.{
  AddressPayload, with_address, new_address, create_address, add_address, update_address,
  delete_address, count_addresses, set_default, without_address, clear_defaults, is_true,
}
use restaurant_management_ba.Customers.Defaults.{
  IsSettled, Updates, done, update, add-IsSettled, clear-Updates, Updates-IsKeyed,
}
use restaurant_management_ba.Customers.Kept.{
  written, write-IsSettled, write-Updates, remove-IsSettled, remove-Updates,
}

-- An address is of its customer's restaurant.
abbrev IsOwn : List Customer → CustomerAddress → Type 0
IsOwn customers a =
    All (λ (x : Customer). x.id ≡ a.customer_id → a.restaurant_id ≡ x.restaurant_id) customers

-- Customers and addresses have their own identifiers, are of their customers' restaurants, and of a customer's
-- addresses one is the default.
pub record IsPeople (s : People) : Type 0 where
  pub keyed_customers : IsKeyed (λ c. c.id) s.customers
  pub keyed : IsKeyed (λ a. a.id) s.addresses
  pub own : All (IsOwn s.customers) s.addresses
  pub settled : IsSettled s.addresses

Updates-IsOwn :
    (r c : ℕ) (customers : List Customer) (rows rows' : List CustomerAddress)
    → Updates r c rows rows'
    → All (IsOwn customers) rows
    → All (IsOwn customers) rows'
Updates-IsOwn r c customers rows rows' (done _) h = h
Updates-IsOwn r c customers rows rows' (update p f _ t hp hf u) h =
    All-update_many (IsOwn customers) p f t (λ a o. rw (hf.same_restaurant a, hf.same_customer a) o)
      (Updates-IsOwn r c customers rows t u h)

updated :
    (r c : ℕ) (s : People) (rows : List CustomerAddress)
    → IsPeople s
    → Updates r c s.addresses rows
    → IsSettled rows
    → IsPeople (record s { addresses = rows })
updated r c s rows h u t = record {
  keyed_customers = h.keyed_customers;
  keyed = Updates-IsKeyed r c s.addresses rows u h.keyed;
  own = Updates-IsOwn r c s.customers s.addresses rows u h.own;
  settled = t;
}

-- The count of a customer's addresses is that of the addresses an update reaches.
counts_own :
    (r c : ℕ) (rows : List CustomerAddress)
    → All (λ (a : CustomerAddress). a.customer_id ≡ c → a.restaurant_id ≡ r) rows
    → count (λ a. a.customer_id == c && not (is_some a.deleted_at)) rows
      ≡ count (is_live_address r c) rows
unfolding count
counts_own r c [] h = refl
counts_own r c (a ∷ rows) h = ground (arith, h.0, counts_own r c rows h.1)

module _ (ctx : TenantContext) (customer : ℕ) (s : People) (x : Customer)
    (there : find_customer_by_id ctx customer s ≡ some x) (h : IsPeople s) where
  own_counts :
      count_addresses customer s ≡ count (is_live_address ctx.restaurant_id customer) s.addresses
  unfolding count_addresses find_customer_by_id
  own_counts =
      let is : is_customer ctx.restaurant_id customer x ≡ true =
        find_first_holds (is_customer ctx.restaurant_id customer) s.customers x there in
      counts_own ctx.restaurant_id customer s.addresses (
        All-map (IsOwn s.customers)
          (λ a. a.customer_id ≡ customer → a.restaurant_id ≡ ctx.restaurant_id) s.addresses
          (λ a o e.
            let same =
              All-find_first (λ y. y.id ≡ a.customer_id → a.restaurant_id ≡ y.restaurant_id)
                (is_customer ctx.restaurant_id customer) s.customers x o there in
            ground (arith, same, is, e))
          h.own)

  new-IsOwn :
      (payload : AddressPayload) (default : Bool) (id : ℕ)
      → IsOwn s.customers (new_address ctx customer payload default id)
  unfolding find_customer_by_id new_address
  new-IsOwn payload default id =
      let is : is_customer ctx.restaurant_id customer x ≡ true =
        find_first_holds (is_customer ctx.restaurant_id customer) s.customers x there in
      All-map (λ y. y.id ≡ x.id → y ≡ x)
        (λ y. y.id ≡ customer → ctx.restaurant_id ≡ y.restaurant_id) s.customers
        (λ y o e. ground (arith, is, o, e))
        (only_found (λ y. y.id) (is_customer ctx.restaurant_id customer) s.customers x
          h.keyed_customers there)

  pub added :
      (payload : AddressPayload) (default : Bool) (id : ℕ)
      → count (λ a. a.id == id) s.addresses ≡ 0
      → (default ≡ false → count_addresses customer s ≢ 0)
      → IsPeople (record s {
        addresses = with_address (new_address ctx customer payload default id) s.addresses;
      })
  unfolding with_address new_address clear_defaults
  added payload true id fresh alone =
      let a = new_address ctx customer payload true id in
      let cleared =
        update_many (is_live_address ctx.restaurant_id customer) (set_default false) s.addresses in
      let u : Updates ctx.restaurant_id customer s.addresses cleared =
        clear-Updates ctx.restaurant_id customer s.addresses in
      let none_there : count (λ b. b.id == id) cleared ≡ 0 =
        count-update_many (λ b. b.id == id) (is_live_address ctx.restaurant_id customer)
          (set_default false) s.addresses (λ b. refl)
        ∙ fresh in
      record {
        keyed_customers = h.keyed_customers;
        keyed =
            IsKeyed-append (λ b. b.id) cleared a none_there
              (Updates-IsKeyed ctx.restaurant_id customer s.addresses cleared u h.keyed);
        own =
            All-append (IsOwn s.customers) cleared (a ∷ [])
              (Updates-IsOwn ctx.restaurant_id customer s.customers s.addresses cleared u h.own)
              (new-IsOwn payload true id, tt);
        settled = add-IsSettled a s.addresses refl (λ e. ground arith) h.settled;
      }
  added payload false id fresh alone =
      let a = new_address ctx customer payload false id in
      record {
        keyed_customers = h.keyed_customers;
        keyed = IsKeyed-append (λ b. b.id) s.addresses a fresh h.keyed;
        own =
            All-append (IsOwn s.customers) s.addresses (a ∷ []) h.own
              (new-IsOwn payload false id, tt);
        settled =
            add-IsSettled a s.addresses refl (λ e. ground (arith, own_counts, alone refl))
              h.settled;
      }

-- A request on addresses, with what it takes from outside.
pub data AddressRequest : Type 0 where
  add : PeopleEnv → TenantContext → ℕ → AddressPayload → AddressRequest
  change : TenantContext → ℕ → ℕ → AddressPayload → AddressRequest
  delete : PeopleEnv → TenantContext → ℕ → ℕ → AddressRequest

abbrev alone : People → People
alone s = s

unfoldable pub serve_address : AddressRequest → People → People
unfolding add_address update_address delete_address
serve_address (add env ctx customer payload) s = (add_address env alone ctx customer payload s).1
serve_address (change ctx customer id payload) s =
    (update_address alone ctx customer id payload s).1
serve_address (delete env ctx customer id) s = (delete_address env alone ctx customer id s).1

unfoldable pub serve_addresses : List AddressRequest → People → People
serve_addresses [] s = s
serve_addresses (r ∷ rs) s = serve_addresses rs (serve_address r s)

-- The generator gives identifiers that no address has.
abbrev pub IsFresh : AddressRequest → Type 0
IsFresh (add env ctx customer payload) =
    (s : People) → count (λ a. a.id == env.next_address s) s.addresses ≡ 0
IsFresh (change ctx customer id payload) = Unit
IsFresh (delete env ctx customer id) = Unit

missing :
    (r : AddressRequest) (s : People)
    → serve_address r s ≡ s
    → IsPeople s
    → IsPeople (serve_address r s)
missing r s e h = rw e h

serve_address-IsPeople :
    (r : AddressRequest) (s : People) → IsFresh r → IsPeople s → IsPeople (serve_address r s)
unfolding serve_address add_address create_address update_address delete_address get_customer_by_id
    find_address_by_id
serve_address-IsPeople (add env ctx customer payload) s f h =
    elim (Option-cases (find_customer_by_id ctx customer s)) [
      | inl e ↦ missing (add env ctx customer payload) s (ground (arith, e)) h
      | inr (x, e) ↦
          let default = count_addresses customer s == 0 || is_true payload.is_default in
          let out : serve_address (add env ctx customer payload) s ≡ record s {
            addresses =
                with_address (new_address ctx customer payload default (env.next_address s))
                  s.addresses;
          } =
            ground (arith, e) in
          rw out (
            added ctx customer s x e h payload default (env.next_address s) (f s)
              (λ n. ground arith))
    ]
serve_address-IsPeople (change ctx customer id payload) s f h =
    let r = ctx.restaurant_id in
    elim (Option-cases (find_customer_by_id ctx customer s)) [
      | inl e ↦ missing (change ctx customer id payload) s (ground (arith, e)) h
      | inr (y, e) ↦ elim (Option-cases (find_first (is_address r customer id) s.addresses)) [
        | inl n ↦ missing (change ctx customer id payload) s (ground (arith, e, n)) h
        | inr (x, n) ↦
            let out : serve_address (change ctx customer id payload) s
                ≡ record s { addresses = written r customer id s.addresses x h.keyed n payload } =
              ground (arith, e, n) in
            rw out (
              updated r customer s (written r customer id s.addresses x h.keyed n payload) h
                (write-Updates r customer id s.addresses x h.keyed n payload)
                (write-IsSettled r customer id s.addresses x h.keyed n payload h.settled))
      ]
    ]
serve_address-IsPeople (delete env ctx customer id) s f h =
    let r = ctx.restaurant_id in
    elim (Option-cases (find_customer_by_id ctx customer s)) [
      | inl e ↦ missing (delete env ctx customer id) s (ground (arith, e)) h
      | inr (y, e) ↦ elim (Option-cases (find_first (is_address r customer id) s.addresses)) [
        | inl n ↦ missing (delete env ctx customer id) s (ground (arith, e, n)) h
        | inr (x, n) ↦
            let out : serve_address (delete env ctx customer id) s ≡ record s {
              addresses = without_address env.now r customer id x.is_default s.addresses;
            } =
              ground (arith, e, n) in
            rw out (
              updated r customer s (without_address env.now r customer id x.is_default s.addresses)
                h (remove-Updates r customer id s.addresses x h.keyed n env.now)
                (remove-IsSettled r customer id s.addresses x h.keyed n env.now h.settled))
      ]
    ]

-- Any sequence of requests to add, change and delete addresses, whether they succeed or fail, keeps
-- exactly one default address for every customer with addresses that are not deleted, and none for every
-- other, given that new identifiers are fresh, customers and addresses have their own identifiers at the
-- start, every address is of its customer's restaurant, and the requests come one after another.
pub serve_addresses-IsPeople :
    (rs : List AddressRequest) (s : People)
    → All IsFresh rs
    → IsPeople s
    → IsPeople (serve_addresses rs s)
unfolding serve_addresses
serve_addresses-IsPeople [] s f h = h
serve_addresses-IsPeople (r ∷ rs) s f h =
    serve_addresses-IsPeople rs (serve_address r s) f.1 (serve_address-IsPeople r s f.0 h)
