-- ===== src/Sessions/Lockout.antt =====
-- The lockout of joinSession.
use Prim.Native.String.{String}
use restaurant_management_ba.Base.{
  ℕ, ◌+◌, ◌-◌, ◌*◌, ◌/◌, ◌^◌, ◌≤◌, ◌<◌, ◌≡◌, refl, ap, Bool, true, false, some, List, [], ◌∷◌,
  arith,
}
use restaurant_management_ba.Model.{Db, TableSession, RestaurantTable}
use restaurant_management_ba.Store.{find_first, find_first_holds, update_many}
use restaurant_management_ba.Exec.{err, business_rule, validation, wrong_pin, locked_out}
use restaurant_management_ba.Env.{Env}
use restaurant_management_ba.Sessions.Find.{
  is_session, is_open_at, find_table_by_qr_token, find_active_session_by_table,
}
use restaurant_management_ba.Sessions.Pin.{
  Pins, lockout, lockout_level, lockout_end, check_pin, join_session, is_locked, wait_of,
}

pub find_first-update_many :
    {A : Type 0} (p q : A → Bool) (f : A → A) (xs : List A) (x : A)
    → ((y : A) → q (f y) ≡ q y)
    → find_first q xs ≡ some x
    → p x ≡ true
    → find_first q (update_many p f xs) ≡ some (f x)
unfolding find_first update_many
find_first-update_many p q f [] x same h k = ground arith
find_first-update_many p q f (y ∷ ys) x same h k =
    ground (arith, same y, find_first-update_many p q f ys x same)

module _ (r token : ℕ) (t : RestaurantTable) (x : TableSession) (s : Db)
    (at_table : find_table_by_qr_token token r s ≡ some t)
    (seated : find_active_session_by_table r t.id s ≡ some x) where
  abbrev locking : Env → TableSession → TableSession
  locking env y = record y {
    failed_attempts = x.failed_attempts + 1;
    lockout_level = lockout_level (x.failed_attempts + 1);
    lockout_until = lockout_end env.now (x.failed_attempts + 1);
  }

  abbrev locked_db : Env → Db
  locked_db env = record s { sessions = update_many (is_session r x.id) (locking env) s.sessions }

  own : is_open_at r t.id x ≡ true → is_session r x.id x ≡ true
  own h = ground arith

  wrong_pin_writes :
      (env : Env) (pins : Pins) (name pin : String)
      → is_locked env.now x ≡ false
      → pins.compare pin x.pin_hash ≡ false
      → join_session env pins r token name pin s
        ≡ (err (validation (wrong_pin (3 - (x.failed_attempts + 1)))), locked_db env)
  unfolding join_session check_pin lockout
  wrong_pin_writes env pins name pin free wrong = ground (arith, at_table, seated)

  still_seated :
      (env : Env) → find_active_session_by_table r t.id (locked_db env) ≡ some (locking env x)
  unfolding find_active_session_by_table
  still_seated env =
      find_first-update_many (is_session r x.id) (is_open_at r t.id) (locking env) s.sessions x
        (λ y. refl) seated (own (find_first_holds (is_open_at r t.id) s.sessions x seated))

  refused :
      (env env' : Env) (pins' : Pins) (name' pin' : String)
      → is_locked env'.now (locking env x) ≡ true
      → join_session env' pins' r token name' pin' (locked_db env)
        ≡ (err (business_rule (locked_out (wait_of env'.now (locking env x)))), locked_db env)
  unfolding join_session find_table_by_qr_token
  refused env env' pins' name' pin' h = ground (arith, at_table, still_seated env)

locks :
    (env : Env) (now failed : ℕ) (y : TableSession)
    → 3 ≤ failed
    → now < env.now + 60 * 2 ^ (failed / 3) * 1000
    → is_locked now (record y { lockout_until = lockout_end env.now failed }) ≡ true
unfolding lockout_end
locks env now failed y h k = ground arith

-- A wrong PIN on an open session that is not locked, after two or more wrong ones, fails; from then on,
-- for 60 seconds doubled once for every three failures, every attempt to join at that table fails as
-- locked out, with any PIN, the right one too, and changes nothing.
pub join_session_locks :
    (r token : ℕ) (t : RestaurantTable) (x : TableSession) (s : Db) (env env' : Env)
    (pins pins' : Pins) (name name' pin pin' : String)
    → find_table_by_qr_token token r s ≡ some t
    → find_active_session_by_table r t.id s ≡ some x
    → is_locked env.now x ≡ false
    → pins.compare pin x.pin_hash ≡ false
    → 2 ≤ x.failed_attempts
    → env'.now < env.now + 60 * 2 ^ ((x.failed_attempts + 1) / 3) * 1000
    → let first = join_session env pins r token name pin s in
      (first.0 ≡ err (validation (wrong_pin 0)))
      × ((wait : ℕ) × (join_session env' pins' r token name' pin' first.1
            ≡ (err (business_rule (locked_out wait)), first.1)))
join_session_locks r token t x s env env' pins pins' name name' pin pin' at_table seated free wrong
      twice soon =
    let none_left : 3 - (x.failed_attempts + 1) ≡ 0 = omega arith in
    let first = wrong_pin_writes r token t x s at_table seated env pins name pin free wrong in
    rw first (
      ap (λ n. err (validation (wrong_pin n))) none_left,
      (
        _,
        refused r token t x s at_table seated env env' pins' name' pin'
            (locks env env'.now (x.failed_attempts + 1) x (omega arith) soon),
      ),
    )
