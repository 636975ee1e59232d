-- ===== src/Sessions/Trace.antt =====
-- Sequences of requests on table sessions and orders, and what they keep of the orders.
use Prim.Native.String.{String}
use restaurant_management_ba.Base.{ℕ, List, [], ◌∷◌, All}
use restaurant_management_ba.Model.{Db, TenantContext}
use restaurant_management_ba.Env.{Env, IsEnv}
use restaurant_management_ba.Orders.Sound.{IsSound}
use restaurant_management_ba.Orders.Creation.{IsAfter, IsAfter-refl, IsAfter-trans}
use restaurant_management_ba.Orders.Trace.{Request, IsRequest, serve_request, serve_request-IsAfter}
use restaurant_management_ba.Sessions.Pin.{Pins, start_session, join_session, regenerate_pin}
use restaurant_management_ba.Sessions.Items.{add_item, update_item, remove_item}
use restaurant_management_ba.Sessions.Calls.{
  CallDetails, call_waiter, accept_waiter_call, dismiss_waiter_call,
}
use restaurant_management_ba.Sessions.Rounds.{submit_draft, reject_pending_order, close_session}
use restaurant_management_ba.Sessions.Confirm.{confirm_session}
use restaurant_management_ba.Sessions.Kept.{IsAlike, IsAfter-IsAlike}
use restaurant_management_ba.Sessions.Alike.{
  confirm_session-IsAfter, start_session-IsAlike, join_session-IsAlike, regenerate_pin-IsAlike,
  add_item-IsAlike, update_item-IsAlike, remove_item-IsAlike, call_waiter-IsAlike,
  accept_waiter_call-IsAlike, dismiss_waiter_call-IsAlike, submit_draft-IsAlike,
  reject_pending_order-IsAlike, close_session-IsAlike,
}

-- The requests of guests and staff, with what each is given.
pub data SessionRequest : Type 0 where
  on_order : Request → SessionRequest
  start : TenantContext → ℕ → SessionRequest
  join : ℕ → ℕ → String → String → SessionRequest
  new_pin : TenantContext → ℕ → SessionRequest
  add : ℕ → ℕ → ℕ → ℕ → ℕ → SessionRequest
  change : ℕ → ℕ → ℕ → ℕ → SessionRequest
  remove : ℕ → ℕ → ℕ → SessionRequest
  call : ℕ → ℕ → CallDetails → SessionRequest
  accept dismiss : TenantContext → ℕ → SessionRequest
  submit : ℕ → ℕ → SessionRequest
  confirm reject close : TenantContext → ℕ → SessionRequest

abbrev pub IsSessionRequest : Env → SessionRequest → Type 0
IsSessionRequest env (on_order q) = IsRequest env q
IsSessionRequest env _ = Unit

abbrev alone : Db → Db
alone s = s

unfoldable pub serve_session : Env → Pins → SessionRequest → Db → Db
serve_session env pins (on_order q) s = serve_request env q s
serve_session env pins (start ctx t) s = (start_session env pins ctx t s).1
serve_session env pins (join r t name pin) s = (join_session env pins r t name pin s).1
serve_session env pins (new_pin ctx id) s = (regenerate_pin pins ctx id s).1
serve_session env pins (add r id m p q) s = (add_item env r id m p q s).1
serve_session env pins (change r id i q) s = (update_item r id i q s).1
serve_session env pins (remove r id i) s = (remove_item r id i s).1
serve_session env pins (call r id d) s = (call_waiter env r id d s).1
serve_session env pins (accept ctx id) s = (accept_waiter_call env ctx id s).1
serve_session env pins (dismiss ctx id) s = (dismiss_waiter_call env ctx id s).1
serve_session env pins (submit r id) s = (submit_draft env r id s).1
serve_session env pins (confirm ctx id) s = (confirm_session alone env ctx id s).1
serve_session env pins (reject ctx id) s = (reject_pending_order env ctx id s).1
serve_session env pins (close ctx id) s = (close_session env ctx id s).1

unfoldable pub serve_sessions : Env → Pins → List SessionRequest → Db → Db
serve_sessions env pins [] s = s
serve_sessions env pins (q ∷ qs) s = serve_sessions env pins qs (serve_session env pins q s)

module _ (env : Env) (pins : Pins) (lawful : IsEnv env) where
  alike : (s t : Db) → IsSound s → IsAlike s t → IsAfter s t
  alike s t h k = IsAfter-IsAlike s s t (IsAfter-refl s h) k

  serve_session-IsAfter :
      (q : SessionRequest) (s : Db)
      → IsSessionRequest env q
      → IsSound s
      → IsAfter s (serve_session env pins q s)
  unfolding serve_session
  serve_session-IsAfter (on_order q) s w h = serve_request-IsAfter env q s lawful w h
  serve_session-IsAfter (start ctx t) s w h = alike s _ h (start_session-IsAlike env pins ctx t s)
  serve_session-IsAfter (join r t name pin) s w h =
      alike s _ h (join_session-IsAlike env pins r t name pin s)
  serve_session-IsAfter (new_pin ctx id) s w h = alike s _ h (regenerate_pin-IsAlike pins ctx id s)
  serve_session-IsAfter (add r id m p q) s w h = alike s _ h (add_item-IsAlike env r id m p q s)
  serve_session-IsAfter (change r id i q) s w h = alike s _ h (update_item-IsAlike r id i q s)
  serve_session-IsAfter (remove r id i) s w h = alike s _ h (remove_item-IsAlike r id i s)
  serve_session-IsAfter (call r id d) s w h = alike s _ h (call_waiter-IsAlike env r id d s)
  serve_session-IsAfter (accept ctx id) s w h =
      alike s _ h (accept_waiter_call-IsAlike env ctx id s)
  serve_session-IsAfter (dismiss ctx id) s w h =
      alike s _ h (dismiss_waiter_call-IsAlike env ctx id s)
  serve_session-IsAfter (submit r id) s w h = alike s _ h (submit_draft-IsAlike env r id s)
  serve_session-IsAfter (confirm ctx id) s w h =
      confirm_session-IsAfter alone env ctx id s lawful (IsAfter-refl s h) h
  serve_session-IsAfter (reject ctx id) s w h =
      alike s _ h (reject_pending_order-IsAlike env ctx id s)
  serve_session-IsAfter (close ctx id) s w h = alike s _ h (close_session-IsAlike env ctx id s)

  -- Any sequence of requests on table sessions and on orders, one after the other, whether they succeed
  -- or fail, takes a sound database to a sound one, in which every order that was there has moved forward
  -- by Evolves, given that new identifiers are fresh, a rounded amount is at most half a cent away, a
  -- column stores whole cents as they are, and a payload that the staff create has the subtotal of its
  -- items, a discount of whole cents and another status than cancelled.
  pub serve_sessions-IsAfter :
      (qs : List SessionRequest) (s : Db)
      → All (IsSessionRequest env) qs
      → IsSound s
      → IsAfter s (serve_sessions env pins qs s)
  unfolding serve_sessions
  serve_sessions-IsAfter [] s w h = IsAfter-refl s h
  serve_sessions-IsAfter (q ∷ qs) s w h =
      let first = serve_session-IsAfter q s w.0 h in
      IsAfter-trans s (serve_session env pins q s) _ first
        (serve_sessions-IsAfter qs (serve_session env pins q s) w.1 first.sound)
