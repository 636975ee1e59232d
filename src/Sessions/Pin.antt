-- ===== src/Sessions/Pin.antt =====
-- startSession, joinSession and regeneratePin of src/modules/table-sessions/table-session.service.js. The hash
-- of a PIN is the work of a third-party package, so it is a parameter.
use Prim.Native.String.{String}
use restaurant_management_ba.Base.{
  ℕ, ◌+◌, ◌-◌, ◌*◌, ◌/◌, ◌^◌, Bool, true, false, not, ◌&&◌, Option, none, some, [], ◌∷◌, ◌++◌, ◌==◌,
  ltb, leb, is_some, if◌then◌else◌,
}
use restaurant_management_ba.Model.{
  Db, RestaurantTable, TableStatus, TableSession, SessionStatus, SessionMember, TenantContext,
  is_open,
}
use restaurant_management_ba.Store.{find_first, update_many, count}
use restaurant_management_ba.Exec.{
  Action, ok, err, gets, modify, or_throw, throw_if, pure, ◌>>=◌, ◌>>◌, not_found, business_rule,
  validation, table_missing, session_exists, no_active_session, session_closed, locked_out,
  wrong_pin,
}
use restaurant_management_ba.Env.{Env}
use restaurant_management_ba.Sessions.Find.{
  is_session, is_open_at, find_table_by_qr_token, find_active_session_by_table, require_session,
  SessionView, public_session,
}

-- bcrypt, and `String(randomInt(0, 10000)).padStart(4, "0")`.
pub record Pins : Type 0 where
  pub new_pin : Db → String
  pub hash : String → String
  pub compare : String → String → Bool

-- `byToken || prisma.restaurantTable.findFirst(...)`
unfoldable pub find_table : ℕ → ℕ → Db → Option RestaurantTable
unfolding find_table_by_qr_token
find_table restaurant id s = elim (find_table_by_qr_token id restaurant s) [
  | some t ↦ some t
  | none ↦
      find_first (λ t. t.id == id && t.restaurant_id == restaurant && not (is_some t.deleted_at))
        s.tables
]

-- createSession: the partial unique index on the open sessions of a table.
unfoldable pub create_session : TableSession → Action (Unit {0})
create_session x s =
    if 0 == count (is_open_at x.restaurant_id x.table_id) s.sessions
    then (ok tt, record s { sessions = s.sessions ++ (x ∷ []) })
    else (err (business_rule session_exists), s)

-- `status === "AVAILABLE" ? { ..., status: "OCCUPIED" } : { ... }`
abbrev pub takes_status : ℕ → ℕ → TableStatus → RestaurantTable → Bool
takes_status id restaurant st t =
    t.id == id
    && t.restaurant_id == restaurant
    && elim st [ TableStatus.available ↦ is_occupied t.status | _ ↦ true ]
  where
    is_occupied : TableStatus → Bool
    is_occupied TableStatus.occupied = true
    is_occupied _ = false

-- setTableStatus
unfoldable pub set_table_status : ℕ → ℕ → TableStatus → Action (Unit {0})
set_table_status id restaurant st = modify (λ s. record s {
  tables = update_many (takes_status id restaurant st) (λ t. record t { status = st }) s.tables;
})

abbrev pub new_session : Env → Pins → TenantContext → RestaurantTable → String → Db → TableSession
new_session env pins ctx t pin s = record {
  id = env.new_id s;
  restaurant_id = ctx.restaurant_id;
  branch_id = t.branch_id;
  table_id = t.id;
  pin_hash = pins.hash pin;
  pin = none;
  status = SessionStatus.active;
  failed_attempts = 0;
  lockout_level = 0;
  lockout_until = none;
  created_by = ctx.employee_id;
  confirmed_order_id = none;
  closed_at = none;
}

-- What startSession and regeneratePin return.
pub record Started : Type 0 where
  pub session_id : ℕ
  pub pin : String

unfoldable pub start_session : Env → Pins → TenantContext → ℕ → Action Started
unfolding find_table find_active_session_by_table create_session set_table_status
start_session env pins ctx table_id = do
  table ← or_throw (← gets (find_table ctx.restaurant_id table_id)) (not_found table_missing)
  existing ← gets (find_active_session_by_table ctx.restaurant_id table.id)
  throw_if (is_some existing) (business_rule session_exists)
  pin ← gets pins.new_pin
  x ← gets (new_session env pins ctx table pin)
  create_session x
  set_table_status table.id ctx.restaurant_id TableStatus.occupied
  pure (record { session_id = x.id; pin = pin })

-- lockout
unfoldable pub lockout : ℕ → ℕ → ℕ → ℕ → Option ℕ → Action (Unit {0})
lockout id restaurant failed level til = modify (λ s. record s {
  sessions =
      update_many (is_session restaurant id)
        (λ x. record x { failed_attempts = failed; lockout_level = level; lockout_until = til })
        s.sessions;
})

-- `{ failAfter: 3, baseSeconds: 60 }`
abbrev pub fail_after : ℕ
fail_after = 3

abbrev pub base_seconds : ℕ
base_seconds = 60

-- The level and the end of the lockout after so many failures.
unfoldable pub lockout_level : ℕ → ℕ
lockout_level failed = if leb fail_after failed then failed / fail_after else 0

unfoldable pub lockout_end : ℕ → ℕ → Option ℕ
lockout_end now failed =
    if leb fail_after failed
    then some (now + base_seconds * 2 ^ (failed / fail_after) * 1000)
    else none

abbrev pub is_locked : ℕ → TableSession → Bool
is_locked now x = elim x.lockout_until [ none ↦ false | some til ↦ ltb now til ]

-- `Math.ceil((lockoutUntil - now) / 1000)`
abbrev pub wait_of : ℕ → TableSession → ℕ
wait_of now x = elim x.lockout_until [ none ↦ 0 | some til ↦ (til - now + 999) / 1000 ]

unfoldable pub add_member : Env → ℕ → String → Action SessionMember
add_member env session name = do
  id ← gets env.new_id
  let member : SessionMember = record { id = id; session_id = session; name = name }
  modify (λ s. record s { members = s.members ++ (member ∷ []) })
  pure member

-- The wrong PIN is counted before the error is thrown, outside a transaction.
unfoldable pub check_pin : Env → Pins → ℕ → TableSession → String → Action (Unit {0})
unfolding lockout lockout_level lockout_end
check_pin env pins restaurant x pin =
    let failed = x.failed_attempts + 1 in
    if pins.compare pin x.pin_hash
    then lockout x.id restaurant 0 0 none
    else (lockout x.id restaurant failed (lockout_level failed) (lockout_end env.now failed)
        >> throw_if true (validation (wrong_pin (fail_after - failed))))

-- joinSession; the token is signed from the member's identifier by a third-party package.
unfoldable pub join_session :
    Env → Pins → ℕ → ℕ → String → String → Action (SessionMember × SessionView)
unfolding find_table_by_qr_token find_active_session_by_table check_pin add_member public_session
join_session env pins restaurant token name pin = do
  table ← or_throw (← gets (find_table_by_qr_token token restaurant)) (not_found table_missing)
  x ←
      or_throw (← gets (find_active_session_by_table restaurant table.id))
        (not_found no_active_session)
  throw_if (is_locked env.now x) (business_rule (locked_out (wait_of env.now x)))
  check_pin env pins restaurant x pin
  member ← add_member env x.id name
  view ← public_session restaurant x.id
  pure (member, view)

-- updatePin
unfoldable pub update_pin : ℕ → ℕ → String → Action (Unit {0})
update_pin id restaurant hash = modify (λ s. record s {
  sessions =
      update_many (is_session restaurant id) (λ x. record x { pin = none; pin_hash = hash })
        s.sessions;
})

unfoldable pub regenerate_pin : Pins → TenantContext → ℕ → Action Started
unfolding require_session update_pin
regenerate_pin pins ctx id = do
  x ← require_session ctx.restaurant_id id
  throw_if (not (is_open x.status)) (business_rule session_closed)
  pin ← gets pins.new_pin
  update_pin id ctx.restaurant_id (pins.hash pin)
  pure (record { session_id = id; pin = pin })
