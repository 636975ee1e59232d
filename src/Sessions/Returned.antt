-- ===== src/Sessions/Returned.antt =====
-- A round that is submitted and then returned to the guests: rejectPendingOrder undoes submitDraft.
use restaurant_management_ba.Base.{
  ℕ, ◌≡◌, refl, true, not, none, some, List, [], ◌∷◌, ◌++◌, arith, ◌==◌, sum_of, ap, Option-cases,
  inl, inr,
}
use restaurant_management_ba.Model.{
  Db, TableSession, SessionStatus, SessionItem, SessionOrder, SessionOrderStatus, TenantContext,
}
use restaurant_management_ba.Store.{find_first, find_first_holds, find_many, update_many, count}
use restaurant_management_ba.Exec.{ok}
use restaurant_management_ba.Env.{Env}
use restaurant_management_ba.Sessions.Lockout.{find_first-update_many}
use restaurant_management_ba.Sessions.Find.{
  is_session, is_current, is_linked, is_pending, line_total, current_items, find_session_by_id,
  SessionView, public_session, view_of,
}
use restaurant_management_ba.Sessions.Rounds.{
  submit_draft, reject_pending_order, create_round, remove_round, set_session, set_session_status,
  link, unlink, is_of_round, is_round, next_order_number,
}

relinked :
    (session id : ℕ) (items : List SessionItem)
    → count (is_linked id) items ≡ 0
    → update_many (is_of_round session id) unlink (update_many (is_current session) (link id) items)
      ≡ items
unfolding update_many count
relinked session id [] h = refl
relinked session id (i ∷ is) h = ground (arith, relinked session id is (ground arith))

removed :
    (session id : ℕ) (rounds : List SessionOrder) (o : SessionOrder)
    → count (λ (x : SessionOrder). x.id == id) rounds ≡ 0
    → is_round session id o ≡ true
    → find_many (λ x. not (is_round session id x)) (rounds ++ (o ∷ [])) ≡ rounds
unfolding find_many count
removed session id [] o h k = ground arith
removed session id (x ∷ xs) o h k = ground (arith, removed session id xs o (ground arith) k)

last_found :
    (session : ℕ) (rounds : List SessionOrder) (o : SessionOrder)
    → count (is_pending session) rounds ≡ 0
    → is_pending session o ≡ true
    → find_first (is_pending session) (rounds ++ (o ∷ [])) ≡ some o
unfolding find_first count
last_found session [] o h k = ground arith
last_found session (x ∷ xs) o h k = ground (arith, last_found session xs o (ground arith) k)

module _ (env : Env) (ctx : TenantContext) (id : ℕ) (s : Db) where
  abbrev new_round : SessionOrder
  new_round = record {
    id = env.new_id s;
    session_id = id;
    order_number = next_order_number id s;
    status = SessionOrderStatus.awaiting_confirmation;
    total = sum_of line_total (current_items id s);
    order_id = none;
    confirmed_at = none;
  }

  abbrev submitted : Db
  submitted = record s {
    session_orders = s.session_orders ++ (new_round ∷ []);
    session_items = update_many (is_current id) (link (env.new_id s)) s.session_items;
    sessions =
        update_many (is_session ctx.restaurant_id id)
          (set_session SessionStatus.awaiting_confirmation env.now) s.sessions;
  }

  submit_draft_ok :
      {v : SessionView}
      → (submit_draft env ctx.restaurant_id id s).0 ≡ ok v
      → (submit_draft env ctx.restaurant_id id s).1 ≡ submitted
  unfolding submit_draft create_round set_session_status public_session
  submit_draft_ok h = ground arith

  submit_draft_found :
      {v : SessionView}
      → (submit_draft env ctx.restaurant_id id s).0 ≡ ok v
      → (x : TableSession) × (find_session_by_id ctx.restaurant_id id s ≡ some x)
  unfolding submit_draft
  submit_draft_found h = elim (Option-cases (find_session_by_id ctx.restaurant_id id s)) [
    | inl e ↦ absurd (ground (arith, e))
    | inr found ↦ found
  ]

  -- The state that a rejection leaves.
  abbrev returned : Env → Db
  returned later = record submitted {
    session_orders = s.session_orders;
    session_items = s.session_items;
    sessions =
        update_many (is_session ctx.restaurant_id id) (set_session SessionStatus.active later.now)
          submitted.sessions;
  }

  module _ (later : Env) (x : TableSession)
      (found : find_session_by_id ctx.restaurant_id id s ≡ some x)
      (fresh : count (λ (o : SessionOrder). o.id == env.new_id s) s.session_orders ≡ 0)
      (loose : count (is_linked (env.new_id s)) s.session_items ≡ 0)
      (settled : count (is_pending id) s.session_orders ≡ 0) where
    waiting :
        find_session_by_id ctx.restaurant_id id submitted
        ≡ some (set_session SessionStatus.awaiting_confirmation env.now x)
    unfolding find_session_by_id
    waiting =
        find_first-update_many (is_session ctx.restaurant_id id) (is_session ctx.restaurant_id id)
          (set_session SessionStatus.awaiting_confirmation env.now) s.sessions x (λ y. refl) found
          (find_first_holds (is_session ctx.restaurant_id id) s.sessions x found)

    active_again :
        find_session_by_id ctx.restaurant_id id (returned later)
        ≡ some (
            set_session SessionStatus.active later.now
              (set_session SessionStatus.awaiting_confirmation env.now x))
    unfolding find_session_by_id
    active_again =
        find_first-update_many (is_session ctx.restaurant_id id) (is_session ctx.restaurant_id id)
          (set_session SessionStatus.active later.now) submitted.sessions _ (λ y. refl) waiting
          (find_first_holds (is_session ctx.restaurant_id id) s.sessions x found)

    pending_round : find_first (is_pending id) submitted.session_orders ≡ some new_round
    pending_round = last_found id s.session_orders new_round settled (ground arith)

    round_removed : remove_round id (env.new_id s) submitted ≡ (
      ok tt,
      record submitted { session_orders = s.session_orders; session_items = s.session_items },
    )
    unfolding remove_round
    round_removed =
        rw
          (
            relinked id (env.new_id s) s.session_items loose,
            removed id (env.new_id s) s.session_orders new_round fresh (ground arith),
          )
          refl

    abbrev again : TableSession
    again =
        set_session SessionStatus.active later.now
          (set_session SessionStatus.awaiting_confirmation env.now x)

    reject_pending_order_ok :
        reject_pending_order later ctx id submitted
        ≡ (ok (view_of again (returned later)), returned later)
    unfolding reject_pending_order set_session_status public_session
    reject_pending_order_ok = ground (arith, waiting, active_again, pending_round, round_removed)

-- A draft that is submitted and then rejected is back as it was: the rejection returns an active session,
-- and the items of all sessions and the rounds are those from before the submission. The session had no
-- round that waits, and the new round's identifier was not in use.
pub reject_pending_order-submit_draft :
    (env later : Env) (ctx : TenantContext) (id : ℕ) (s : Db) (v : SessionView)
    → (submit_draft env ctx.restaurant_id id s).0 ≡ ok v
    → count (λ (o : SessionOrder). o.id == env.new_id s) s.session_orders ≡ 0
    → count (is_linked (env.new_id s)) s.session_items ≡ 0
    → count (is_pending id) s.session_orders ≡ 0
    → let back = reject_pending_order later ctx id (submit_draft env ctx.restaurant_id id s).1 in
      (w : SessionView) × (back.0 ≡ ok w)
      × (w.status ≡ SessionStatus.active)
      × (back.1.session_items ≡ s.session_items)
      × (back.1.session_orders ≡ s.session_orders)
unfolding view_of
reject_pending_order-submit_draft env later ctx id s v done fresh loose settled =
    let (x, found) = submit_draft_found env ctx id s done in
    let back = reject_pending_order_ok env ctx id s later x found fresh loose settled in
    rw (submit_draft_ok env ctx id s done) (
      view_of (again env ctx id s later x found fresh loose settled) (returned env ctx id s later),
      ap (λ p. p.0) back,
      refl,
      ap (λ p. p.1.session_items) back,
      ap (λ p. p.1.session_orders) back,
    )
