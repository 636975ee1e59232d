-- ===== src/Customers/Kept.antt =====
-- The default address when an address is changed or deleted.
use restaurant_management_ba.Base.{
  ℕ, ◌≤◌, ◌≡◌, refl, Bool, true, false, not, ◌&&◌, Option, some, List, ◌==◌, arith, inl, inr,
  Bool-cases, if◌then◌else◌,
}
use restaurant_management_ba.Store.{
  find_first, count, count-found_le, update_many, count-update_off, count-update_none, count_le,
  find_first-update_found, IsKeyed, IsKeyed-update_many,
}
use restaurant_management_ba.Customers.Rows.{CustomerAddress, is_live_address, is_address}
use restaurant_management_ba.Customers.Addresses.{
  AddressPayload, set_default, clear_defaults, settle_default, write_address, discard,
  without_address, is_true, is_false,
}
use restaurant_management_ba.Customers.Defaults.{
  is_default_of, IsSettled, Agrees, Updates, done, update, IsInPlace, by_customer, others-Same,
  counted, is_one, pass_default-cases, pass_default-Updates, clear-Updates,
}

write_address-IsInPlace :
    (payload : AddressPayload) (d : Option Bool) → IsInPlace (write_address payload d)
unfolding write_address
write_address-IsInPlace payload d = record {
  same_id = λ a. refl;
  same_restaurant = λ a. refl;
  same_customer = λ a. refl;
}

if-Updates :
    {A : Type 0} {r c : ℕ} {rows : List CustomerAddress} (b : Bool) (x y : A × List CustomerAddress)
    → Updates r c rows x.1
    → Updates r c rows y.1
    → Updates r c rows (if b then x else y).1
if-Updates true x y u v = u
if-Updates false x y u v = v

module _ (r c id : ℕ) (rows : List CustomerAddress) (x : CustomerAddress)
    (keyed : IsKeyed (λ a. a.id) rows) (found : find_first (is_address r c id) rows ≡ some x) where
  remove_there :
      (now : ℕ) → Agrees r c rows → Agrees r c (without_address now r c id x.is_default rows)
  unfolding without_address
  remove_there now h =
      let left = update_many (is_address r c id) (discard now) rows in
      let kept : IsKeyed (λ a. a.id) left =
        IsKeyed-update_many (λ a. a.id) (is_address r c id) (discard now) rows (λ a. refl) keyed in
      let d = counted r c id rows x keyed found (is_default_of r c) (discard now) in
      let l = counted r c id rows x keyed found (is_live_address r c) (discard now) in
      let m = is_one r c id rows x keyed found in
      let le = count_le (is_default_of r c) (is_live_address r c) left (λ a k. ground arith) in
      elim (Bool-cases x.is_default) [
        | inr e ↦ rw (without_address, e) (ground (arith, d, l, m, le, e))
        | inl b ↦ elim (pass_default-cases r c (λ _. true) left kept) [
          | inl (e, none_left) ↦ rw (without_address, b, e) (ground (arith, d, l, m, le, b))
          | inr (n, live, _, there, e) ↦
              let d' = counted r c n.id left n kept there (is_default_of r c) (set_default true) in
              let l' =
                counted r c n.id left n kept there (is_live_address r c) (set_default true) in
              let one = count-found_le (is_default_of r c) (is_address r c n.id) left n there in
              let some_left =
                count-found_le (is_live_address r c) (is_address r c n.id) left n there in
              rw (without_address, b, e) (ground (arith, d, l, d', l', m, one, some_left, live, b))
        ]
      ]

  -- Where the address found is the only default, another is none.
  other_plain :
      (n : CustomerAddress)
      → find_first (is_address r c n.id) rows ≡ some n
      → not (n.id == id) ≡ true
      → x.is_default ≡ true
      → count (is_default_of r c) rows ≤ 1
      → is_default_of r c n ≡ false
  other_plain n there apart default le =
      let off = update_many (is_address r c id) (set_default false) rows in
      let d = counted r c id rows x keyed found (is_default_of r c) (set_default false) in
      let m = is_one r c id rows x keyed found in
      let kept : find_first (is_address r c n.id) off ≡ some n = ground (
        arith,
        apart,
        find_first-update_found (λ a. a.id) n.id (is_address r c id) (is_address r c n.id)
            (set_default false) rows n there (λ a. refl),
      ) in
      ground (arith, d, m, count-found_le (is_default_of r c) (is_address r c n.id) off n kept)

  module _ (payload : AddressPayload) where
    abbrev pub written : List CustomerAddress
    written =
        let (default, settled) = settle_default r c id x.is_default payload.is_default rows in
        update_many (is_address r c id) (write_address payload default) settled

    write_there : Agrees r c rows → Agrees r c written
    unfolding settle_default clear_defaults write_address
    write_there h =
        let cleared = update_many (is_live_address r c) (set_default false) rows in
        let kept : IsKeyed (λ a. a.id) cleared =
          IsKeyed-update_many (λ a. a.id) (is_live_address r c) (set_default false) rows (λ a. refl)
            keyed in
        let m = is_one r c id rows x keyed found in
        let in_clear : find_first (is_address r c id) cleared ≡ some (set_default false x) =
          ground (
            arith,
            m,
            find_first-update_found (λ a. a.id) id (is_live_address r c) (is_address r c id)
                (set_default false) rows x found (λ a. refl),
          ) in
        let le = count_le (is_default_of r c) (is_live_address r c) rows (λ a k. ground arith) in
        elim (Bool-cases (is_true payload.is_default)) [
          | inl e ↦
              let d =
                counted r c id cleared (set_default false x) kept in_clear (is_default_of r c)
                  (write_address payload payload.is_default) in
              let l =
                counted r c id cleared (set_default false x) kept in_clear (is_live_address r c)
                  (write_address payload payload.is_default) in
              ground (
                arith,
                d,
                l,
                m,
                e,
                count-update_off (is_live_address r c) (is_live_address r c) (set_default false)
                    rows (λ x e. refl),
                count-found_le (is_live_address r c) (is_address r c id) rows x found,
                count-update_none (is_default_of r c) (is_live_address r c) (set_default false) rows
                    (λ x e. ground arith) (λ x e. ground arith),
              )
          | inr e ↦ elim (Bool-cases (is_false payload.is_default && x.is_default)) [
            | inr e' ↦
                let d =
                  counted r c id rows x keyed found (is_default_of r c)
                    (write_address payload payload.is_default) in
                let l =
                  counted r c id rows x keyed found (is_live_address r c)
                    (write_address payload payload.is_default) in
                ground (arith, d, l, m, e, e')
            | inl e' ↦ elim (pass_default-cases r c (λ a. not (a.id == id)) rows keyed) [
              | inl (p, none_left) ↦
                  let d =
                    counted r c id rows x keyed found (is_default_of r c)
                      (write_address payload (some true)) in
                  let l =
                    counted r c id rows x keyed found (is_live_address r c)
                      (write_address payload (some true)) in
                  ground (arith, d, l, m, e, e', h, p)
              | inr (n, live, apart, there, p) ↦
                  let plain = other_plain n there apart in
                  let passed = update_many (is_address r c n.id) (set_default true) rows in
                  let still : IsKeyed (λ a. a.id) passed =
                    IsKeyed-update_many (λ a. a.id) (is_address r c n.id) (set_default true) rows
                      (λ a. refl) keyed in
                  let d' =
                    counted r c n.id rows n keyed there (is_default_of r c) (set_default true) in
                  let l' =
                    counted r c n.id rows n keyed there (is_live_address r c) (set_default true) in
                  let there' : find_first (is_address r c id) passed ≡ some x = ground (
                    arith,
                    m,
                    find_first-update_found (λ a. a.id) id (is_address r c n.id) (is_address r c id)
                        (set_default true) rows x found (λ a. refl),
                  ) in
                  let d =
                    counted r c id passed x still there' (is_default_of r c)
                      (write_address payload payload.is_default) in
                  let l =
                    counted r c id passed x still there' (is_live_address r c)
                      (write_address payload payload.is_default) in
                  ground (
                    arith,
                    d,
                    l,
                    d',
                    l',
                    m,
                    e,
                    e',
                    h,
                    p,
                    live,
                    plain,
                    count-found_le (is_live_address r c) (is_address r c id) rows x found,
                  )
            ]
          ]
        ]

    settled-Updates :
        Updates r c rows (settle_default r c id x.is_default payload.is_default rows).1
    unfolding settle_default clear_defaults
    settled-Updates = if-Updates (is_true payload.is_default) _ _ (clear-Updates r c rows) (
        if-Updates _ _ _ (pass_default-Updates r c (λ a. not (a.id == id)) rows rows (done rows))
          (done rows))

    pub write-Updates : Updates r c rows written
    write-Updates =
        let (default, settled) = settle_default r c id x.is_default payload.is_default rows in
        update (is_address r c id) (write_address payload default) rows settled
          (λ a m. ground arith) (write_address-IsInPlace payload default) settled-Updates

    pub write-IsSettled : IsSettled rows → IsSettled written
    write-IsSettled h =
        by_customer r c rows written h (write_there (h r c))
          (λ r' c' e. others-Same r c r' c' rows written e write-Updates)

  pub remove-Updates : (now : ℕ) → Updates r c rows (without_address now r c id x.is_default rows)
  unfolding without_address
  remove-Updates now =
      let left = update_many (is_address r c id) (discard now) rows in
      let u : Updates r c rows left =
        update (is_address r c id) (discard now) rows rows (λ a m. ground arith)
          (record { same_id = λ a. refl; same_restaurant = λ a. refl; same_customer = λ a. refl })
          (done rows) in
      elim (Bool-cases x.is_default) [
        | inl e ↦ rw e (pass_default-Updates r c (λ _. true) rows left u)
        | inr e ↦ rw e u
      ]

  pub remove-IsSettled :
      (now : ℕ) → IsSettled rows → IsSettled (without_address now r c id x.is_default rows)
  remove-IsSettled now h =
      by_customer r c rows (without_address now r c id x.is_default rows) h
        (remove_there now (h r c))
        (λ r' c' e.
          others-Same r c r' c' rows (without_address now r c id x.is_default rows) e
            (remove-Updates now))
