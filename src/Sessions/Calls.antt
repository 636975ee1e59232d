-- ===== src/Sessions/Calls.antt =====
-- callWaiter, acceptWaiterCall and dismissWaiterCall of src/modules/table-sessions/table-session.service.js.
use Prim.Native.String.{String}
use restaurant_management_ba.Base.{
  ℕ, Bool, not, ◌&&◌, Option, none, some, List, [], ◌∷◌, ◌++◌, ◌==◌, is_some, filled,
}
use restaurant_management_ba.Model.{
  Db, SessionMember, WaiterCall, CallStatus, CallType, TenantContext, is_open,
}
use restaurant_management_ba.Store.{find_first, find_many, update_many}
use restaurant_management_ba.Exec.{
  Action, gets, modify, or_throw, throw_if, pure, ◌>>=◌, ◌>>◌, not_found, business_rule,
  session_closed, call_active, call_missing, call_accepted,
}
use restaurant_management_ba.Env.{Env}
use restaurant_management_ba.Sessions.Find.{
  find_active_waiter_call, require_session, SessionView, public_session, is_live,
}
use restaurant_management_ba.Sessions.Pin.{add_member}
use restaurant_management_ba.Sessions.Items.{or_guest}

-- What a guest may leave out of a call.
pub record CallDetails : Type 0 where
  pub requester_name : Option String
  pub note : Option String
  pub type : Option CallType
  pub member_id : Option ℕ

abbrev members_of : ℕ → Db → List SessionMember
members_of session s = find_many (λ m. m.session_id == session) s.members

abbrev first_of : List SessionMember → Option SessionMember
first_of [] = none
first_of (m ∷ ms) = some m

-- The member that was named, if it is one of the session, or else the first.
abbrev pub calling_member : ℕ → Option ℕ → Db → Option SessionMember
calling_member session none s = first_of (members_of session s)
calling_member session (some id) s =
    elim (find_first (λ m. m.id == id && m.session_id == session) s.members) [
      | none ↦ first_of (members_of session s)
      | some m ↦ some m
    ]

-- `requesterName || member?.name ||` the Arabic for a guest
abbrev caller_name : Option String → Option SessionMember → String
caller_name requester member = elim (filled requester) [
  | some name ↦ name
  | none ↦ or_guest (elim member [ none ↦ none | some m ↦ some m.name ])
]

abbrev call_type : Option CallType → CallType
call_type none = CallType.help
call_type (some t) = t

-- The Arabic text asks for the bill.
abbrev final_note : Option String → CallType → Option String
final_note note type = elim (filled note) [
  | some text ↦ some text
  | none ↦ elim type [
    | CallType.bill ↦
        some
          "\u{637}\u{644}\u{628} \u{627}\u{644}\u{641}\u{627}\u{62a}\u{648}\u{631}\u{629} \u{648}\u{627}\u{644}\u{62d}\u{633}\u{627}\u{628}"
    | _ ↦ none
  ]
]

-- The caller's identifier; a session without members gets one.
unfoldable pub caller_id : Env → ℕ → Option String → Option SessionMember → Action ℕ
unfolding add_member
caller_id env session requester none =
    add_member env session (or_guest requester) >>= λ m. pure m.id
caller_id env session requester (some m) = pure m.id

unfoldable pub call_waiter : Env → ℕ → ℕ → CallDetails → Action WaiterCall
unfolding require_session find_active_waiter_call caller_id
call_waiter env restaurant session_id details = do
  x ← require_session restaurant session_id
  throw_if (not (is_open x.status)) (business_rule session_closed)
  existing ← gets (find_active_waiter_call session_id restaurant)
  throw_if (is_some existing) (business_rule call_active)
  member ← gets (calling_member session_id details.member_id)
  member_id ← caller_id env session_id details.requester_name member
  id ← gets env.new_id
  let type = call_type details.type
  let call : WaiterCall = record {
    id = id;
    restaurant_id = restaurant;
    branch_id = x.branch_id;
    session_id = session_id;
    table_id = x.table_id;
    member_id = member_id;
    requester_name = caller_name details.requester_name member;
    note = final_note details.note type;
    type = type;
    status = CallStatus.pending;
    accepted_by = none;
    accepted_at = none;
    dismissed_at = none;
  }
  modify (λ s. record s { calls = s.calls ++ (call ∷ []) })
  pure call

abbrev is_waiting : CallStatus → Bool
is_waiting CallStatus.pending = Bool.true
is_waiting _ = Bool.false

abbrev is_accepted : CallStatus → Bool
is_accepted CallStatus.accepted = Bool.true
is_accepted _ = Bool.false

unfoldable pub accept_waiter_call : Env → TenantContext → ℕ → Action SessionView
unfolding require_session find_active_waiter_call public_session
accept_waiter_call env ctx session_id = do
  x ← require_session ctx.restaurant_id session_id
  call ←
      or_throw (← gets (find_active_waiter_call session_id ctx.restaurant_id))
        (not_found call_missing)
  throw_if (is_accepted call.status) (business_rule call_accepted)
  modify (λ s. record s {
    calls =
        update_many
          (λ c. c.id == call.id && c.restaurant_id == ctx.restaurant_id && is_waiting c.status)
          (λ c. record c {
            status = CallStatus.accepted;
            accepted_by = ctx.employee_id;
            accepted_at = some env.now;
          })
          s.calls;
  })
  public_session ctx.restaurant_id session_id

unfoldable pub dismiss_waiter_call : Env → TenantContext → ℕ → Action SessionView
unfolding require_session find_active_waiter_call public_session
dismiss_waiter_call env ctx session_id = do
  x ← require_session ctx.restaurant_id session_id
  call ←
      or_throw (← gets (find_active_waiter_call session_id ctx.restaurant_id))
        (not_found call_missing)
  modify (λ s. record s {
    calls =
        update_many
          (λ c. c.id == call.id && c.restaurant_id == ctx.restaurant_id && is_live c.status)
          (λ c. record c { status = CallStatus.dismissed; dismissed_at = some env.now }) s.calls;
  })
  public_session ctx.restaurant_id session_id
