-- ===== src/Sessions/Examples.antt =====
-- The theorems on table sessions at concrete requests.
use text.Mathlib.Text.{◌==◌ as str_eq}
use restaurant_management_ba.Base.{ℕ, ◌≡◌, refl, true, none, some, List, [], ◌∷◌, arith}
use restaurant_management_ba.Model.{Db, TableSession, SessionStatus, SessionItem, Product}
use restaurant_management_ba.Store.{find_first, find_many, update_many, count, find_max}
use restaurant_management_ba.Exec.{ok, err, business_rule, validation, wrong_pin, locked_out}
use restaurant_management_ba.Env.{Env}
use restaurant_management_ba.Orders.Sound.{IsSound}
use restaurant_management_ba.Orders.Creation.{IsAfter}
use restaurant_management_ba.Orders.Scenario.{
  plain_env, plain_env-IsEnv, waiter, lunch, lunch-IsSound, our_table,
}
use restaurant_management_ba.Sessions.Find.{
  find_table_by_qr_token, find_active_session_by_table, find_session_by_id, require_session,
  SessionView, public_session, view_of,
}
use restaurant_management_ba.Sessions.Pin.{Pins, join_session, Started, start_session}
use restaurant_management_ba.Sessions.Rounds.{
  submit_draft, reject_pending_order, next_order_number, create_round, set_session_status,
}
use restaurant_management_ba.Sessions.Confirm.{confirm_session}
use restaurant_management_ba.Sessions.Alike.{confirm_session-IsAfter}
use restaurant_management_ba.Sessions.Seats.{IsSeated, IsStarted, start_session-IsSeated}
use restaurant_management_ba.Sessions.Trace.{
  SessionRequest, join, add, submit, confirm, reject, close, serve_sessions, serve_sessions-IsAfter,
}
use restaurant_management_ba.Sessions.Lockout.{join_session_locks}
use restaurant_management_ba.Sessions.Returned.{reject_pending_order-submit_draft}

-- A hash that hides nothing.
abbrev plain_pins : Pins
plain_pins = record {
  new_pin = λ s. "0420";
  hash = λ pin. pin;
  compare = λ pin hash. str_eq pin hash;
}

abbrev tea : Product
tea = record {
  id = 9;
  restaurant_id = 1;
  name = "tea";
  price = 150;
  is_available = true;
  is_enabled = true;
  deleted_at = none;
}

abbrev seat : TableSession
seat = record {
  id = 30;
  restaurant_id = 1;
  branch_id = 2;
  table_id = 3;
  pin_hash = "0420";
  pin = none;
  status = SessionStatus.active;
  failed_attempts = 2;
  lockout_level = 0;
  lockout_until = none;
  created_by = some 4;
  confirmed_order_id = none;
  closed_at = none;
}

abbrev two_teas : SessionItem
two_teas = record {
  id = 40;
  session_id = 30;
  session_order_id = none;
  product_id = 9;
  product_name = "tea";
  unit_price = 150;
  quantity = 2;
  added_by_name = some "Mona";
}

abbrev party : Db
party = record lunch { products = tea ∷ []; sessions = seat ∷ []; session_items = two_teas ∷ [] }

party-IsSound : IsSound party
party-IsSound = record {
  keyed = lunch-IsSound.keyed;
  balanced = lunch-IsSound.balanced;
  single = lunch-IsSound.single;
  ledger = lunch-IsSound.ledger;
}

-- A round is submitted, sent back, submitted again and confirmed; then the session cannot be closed yet.
abbrev evening : List SessionRequest
evening =
    join 1 77 "Ali" "0420"
    ∷ add 1 30 5 9 1
    ∷ submit 1 30
    ∷ reject waiter 30
    ∷ submit 1 30
    ∷ confirm waiter 30
    ∷ close waiter 30
    ∷ []

serve_sessions-IsAfter_example : IsAfter party (serve_sessions plain_env plain_pins evening party)
serve_sessions-IsAfter_example =
    serve_sessions-IsAfter plain_env plain_pins plain_env-IsEnv evening party
      (tt, (tt, (tt, (tt, (tt, (tt, (tt, tt))))))) party-IsSound

found_table : find_table_by_qr_token 77 1 party ≡ some our_table
unfolding find_table_by_qr_token find_first
found_table = refl

found_seat : find_active_session_by_table 1 3 party ≡ some seat
unfolding find_active_session_by_table find_first
found_seat = refl

-- A minute later.
abbrev later_env : Env
later_env = record plain_env { now = 61_000 }

join_session_locks_example :
    let first = join_session plain_env plain_pins 1 77 "Ali" "1111" party in
    (first.0 ≡ err (validation (wrong_pin 0)))
    × ((wait : ℕ) × (join_session later_env plain_pins 1 77 "Ali" "0420" first.1
          ≡ (err (business_rule (locked_out wait)), first.1)))
join_session_locks_example =
    join_session_locks 1 77 our_table seat party plain_env later_env plain_pins plain_pins "Ali"
      "Ali" "1111" "0420" found_table found_seat refl refl (omega arith) (omega arith)

abbrev submitted_party : Db
submitted_party = (submit_draft plain_env 1 30 party).1

abbrev shown : SessionView
shown = view_of (record seat { status = SessionStatus.awaiting_confirmation }) submitted_party

submitted : (submit_draft plain_env 1 30 party).0 ≡ ok shown
unfolding submit_draft require_session find_session_by_id next_order_number create_round
    set_session_status public_session find_first find_many find_max update_many
submitted = refl

reject_pending_order-submit_draft_example :
    let back = reject_pending_order later_env waiter 30 (submit_draft plain_env 1 30 party).1 in
    (w : SessionView) × (back.0 ≡ ok w)
    × (w.status ≡ SessionStatus.active)
    × (back.1.session_items ≡ party.session_items)
    × (back.1.session_orders ≡ party.session_orders)
unfolding count
reject_pending_order-submit_draft_example =
    reject_pending_order-submit_draft plain_env later_env waiter 30 party shown submitted refl refl
      refl

-- Another guest orders while the round is confirmed.
abbrev guest_adds : Db → Db
guest_adds = serve_sessions plain_env plain_pins (add 1 30 5 9 1 ∷ [])

submitted_party-IsAfter :
    IsAfter party (serve_sessions plain_env plain_pins (submit 1 30 ∷ []) party)
submitted_party-IsAfter =
    serve_sessions-IsAfter plain_env plain_pins plain_env-IsEnv (submit 1 30 ∷ []) party (tt, tt)
      party-IsSound

abbrev round_party : Db
round_party = serve_sessions plain_env plain_pins (submit 1 30 ∷ []) party

confirm_session-IsAfter_example :
    IsAfter round_party (confirm_session guest_adds plain_env waiter 30 round_party).1
confirm_session-IsAfter_example =
    confirm_session-IsAfter guest_adds plain_env waiter 30 round_party plain_env-IsEnv
      (serve_sessions-IsAfter plain_env plain_pins plain_env-IsEnv (add 1 30 5 9 1 ∷ []) round_party
        (tt, tt) submitted_party-IsAfter.sound)
      submitted_party-IsAfter.sound

-- The table's last session is over.
abbrev next_day : Db
next_day = record party { sessions = record seat { status = SessionStatus.closed } ∷ [] }

next_day-IsSeated : IsSeated next_day.sessions
unfolding count
next_day-IsSeated r t = ground arith

start_session-IsSeated_example :
    IsSeated (start_session plain_env plain_pins waiter 77 next_day).1.sessions
    × ((v : Started)
        → (start_session plain_env plain_pins waiter 77 next_day).0 ≡ ok v
        → IsStarted plain_env plain_pins waiter 77 next_day v)
start_session-IsSeated_example =
    start_session-IsSeated plain_env plain_pins waiter 77 next_day next_day-IsSeated
