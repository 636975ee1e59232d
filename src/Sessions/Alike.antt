-- ===== src/Sessions/Alike.antt =====
-- The operations of a session that leave orders, items and coupons alone, and the one that does not.
use Prim.Native.String.{String}
use restaurant_management_ba.Base.{ℕ, ◌≡◌, ◌⊎◌, inl, inr, Option, arith}
use restaurant_management_ba.Model.{Db, TableSession, TenantContext}
use restaurant_management_ba.Exec.{transaction}
use restaurant_management_ba.Env.{Env, IsEnv}
use restaurant_management_ba.Orders.Sound.{IsSound}
use restaurant_management_ba.Orders.Creation.{
  IsAfter, IsAfter-refl, IsAfter-trans, transaction_keeps,
}
use restaurant_management_ba.Sessions.Find.{public_session}
use restaurant_management_ba.Sessions.Pin.{
  Pins, start_session, join_session, regenerate_pin, check_pin,
}
use restaurant_management_ba.Sessions.Items.{add_item, update_item, remove_item, editable_item}
use restaurant_management_ba.Sessions.Calls.{
  CallDetails, call_waiter, caller_id, accept_waiter_call, dismiss_waiter_call,
}
use restaurant_management_ba.Sessions.Rounds.{submit_draft, reject_pending_order, close_session}
use restaurant_management_ba.Sessions.Confirm.{confirm_round, confirm_session}
use restaurant_management_ba.Sessions.Kept.{
  IsAlike, IsAfter-IsAlike, confirm_round_ok, place_round-IsAfter,
}

public_session_keeps : (r id : ℕ) (s : Db) → (public_session r id s).1 ≡ s
unfolding public_session
public_session_keeps r id s = ground arith

confirm_session_ends :
    (m : Db → Db) (env : Env) (ctx : TenantContext) (id : ℕ) (s : Db)
    → ((confirm_session m env ctx id s).1 ≡ s)
      ⊎ ((x : TableSession) × ((confirm_session m env ctx id s).1
            ≡ (transaction (confirm_round env ctx id x) (m s)).1))
unfolding confirm_session
confirm_session_ends m env ctx id s = grind (arith, public_session_keeps)

-- The confirmation of a round takes a sound database to a sound one and every order forward by Evolves,
-- whether it succeeds or fails, given that new identifiers are fresh, a rounded amount is at most half a
-- cent away, a column stores whole cents as they are, and what other requests write between its read of
-- the session and its transaction also leaves a sound database with every order forward.
pub confirm_session-IsAfter :
    (m : Db → Db) (env : Env) (ctx : TenantContext) (id : ℕ) (s : Db)
    → IsEnv env
    → IsAfter s (m s)
    → IsSound s
    → IsAfter s (confirm_session m env ctx id s).1
confirm_session-IsAfter m env ctx id s e others h = elim (confirm_session_ends m env ctx id s) [
  | inl same ↦ rw same (IsAfter-refl s h)
  | inr (x, same) ↦ rw same (
      transaction_keeps (IsAfter s) (confirm_round env ctx id x) (m s)
        (λ n done.
          let (items, (placed, alike)) = confirm_round_ok env ctx x id (m s) done in
          IsAfter-IsAlike s _ _
            (IsAfter-trans s (m s) _ others
              (place_round-IsAfter env ctx x _ items (m s) e others.sound placed))
            alike)
        others)
]

pub start_session-IsAlike :
    (env : Env) (pins : Pins) (ctx : TenantContext) (t : ℕ) (s : Db)
    → IsAlike s (start_session env pins ctx t s).1
unfolding start_session
start_session-IsAlike env pins ctx t s = ground arith

pub check_pin-IsAlike :
    (env : Env) (pins : Pins) (r : ℕ) (x : TableSession) (pin : String) (s : Db)
    → IsAlike s (check_pin env pins r x pin s).1
unfolding check_pin
check_pin-IsAlike env pins r x pin s = ground arith

pub join_session-IsAlike :
    (env : Env) (pins : Pins) (r t : ℕ) (name pin : String) (s : Db)
    → IsAlike s (join_session env pins r t name pin s).1
unfolding join_session
join_session-IsAlike env pins r t name pin s =
    grind (arith, public_session_keeps, check_pin-IsAlike)

pub regenerate_pin-IsAlike :
    (pins : Pins) (ctx : TenantContext) (id : ℕ) (s : Db)
    → IsAlike s (regenerate_pin pins ctx id s).1
unfolding regenerate_pin
regenerate_pin-IsAlike pins ctx id s = ground arith

pub add_item-IsAlike :
    (env : Env) (r id m p q : ℕ) (s : Db) → IsAlike s (add_item env r id m p q s).1
unfolding add_item
add_item-IsAlike env r id m p q s = grind (arith, public_session_keeps)

editable_item_keeps : (r id i : ℕ) (s : Db) → (editable_item r id i s).1 ≡ s
unfolding editable_item
editable_item_keeps r id i s = ground arith

pub update_item-IsAlike : (r id i q : ℕ) (s : Db) → IsAlike s (update_item r id i q s).1
unfolding update_item
update_item-IsAlike r id i q s = grind (arith, public_session_keeps, editable_item_keeps)

pub remove_item-IsAlike : (r id i : ℕ) (s : Db) → IsAlike s (remove_item r id i s).1
unfolding remove_item
remove_item-IsAlike r id i s = grind (arith, public_session_keeps, editable_item_keeps)

pub caller_id-IsAlike :
    (env : Env) (id : ℕ) (name : Option String) (m : _) (s : Db)
    → IsAlike s (caller_id env id name m s).1
unfolding caller_id
caller_id-IsAlike env id name m s = ground arith

pub call_waiter-IsAlike :
    (env : Env) (r id : ℕ) (d : CallDetails) (s : Db) → IsAlike s (call_waiter env r id d s).1
unfolding call_waiter
call_waiter-IsAlike env r id d s = grind (arith, caller_id-IsAlike)

pub accept_waiter_call-IsAlike :
    (env : Env) (ctx : TenantContext) (id : ℕ) (s : Db)
    → IsAlike s (accept_waiter_call env ctx id s).1
unfolding accept_waiter_call
accept_waiter_call-IsAlike env ctx id s = grind (arith, public_session_keeps)

pub dismiss_waiter_call-IsAlike :
    (env : Env) (ctx : TenantContext) (id : ℕ) (s : Db)
    → IsAlike s (dismiss_waiter_call env ctx id s).1
unfolding dismiss_waiter_call
dismiss_waiter_call-IsAlike env ctx id s = grind (arith, public_session_keeps)

pub submit_draft-IsAlike : (env : Env) (r id : ℕ) (s : Db) → IsAlike s (submit_draft env r id s).1
unfolding submit_draft
submit_draft-IsAlike env r id s = grind (arith, public_session_keeps)

pub reject_pending_order-IsAlike :
    (env : Env) (ctx : TenantContext) (id : ℕ) (s : Db)
    → IsAlike s (reject_pending_order env ctx id s).1
unfolding reject_pending_order
reject_pending_order-IsAlike env ctx id s = grind (arith, public_session_keeps)

pub close_session-IsAlike :
    (env : Env) (ctx : TenantContext) (id : ℕ) (s : Db) → IsAlike s (close_session env ctx id s).1
unfolding close_session
close_session-IsAlike env ctx id s = grind (arith, public_session_keeps)
