-- ===== src/Sessions/Seats.antt =====
-- startSession: a table has at most one open session, and the PIN that is returned is the session's.
use restaurant_management_ba.Base.{
  ℕ, ◌≤◌, ◌≡◌, refl, true, none, some, List, [], ◌∷◌, ◌++◌, arith, inl, inr, Option-cases,
}
use restaurant_management_ba.Model.{Db, RestaurantTable, TableSession, TenantContext}
use restaurant_management_ba.Store.{find_first, count, count-append}
use restaurant_management_ba.Exec.{Error, Result, ok, err}
use restaurant_management_ba.Env.{Env}
use restaurant_management_ba.Sessions.Find.{is_open_at, find_active_session_by_table}
use restaurant_management_ba.Sessions.Pin.{
  Pins, Started, find_table, create_session, new_session, start_session,
}

-- No table of a restaurant has two open sessions.
abbrev pub IsSeated : List TableSession → Type 0
IsSeated sessions = (r t : ℕ) → count (is_open_at r t) sessions ≤ 1

append-IsSeated :
    (sessions : List TableSession) (x : TableSession)
    → count (is_open_at x.restaurant_id x.table_id) sessions ≡ 0
    → IsSeated sessions
    → IsSeated (sessions ++ (x ∷ []))
unfolding count
append-IsSeated sessions x h k r t =
    ground (arith, k r t, count-append (is_open_at r t) sessions (x ∷ []))

start_session_failed :
    (env : Env) (pins : Pins) (ctx : TenantContext) (id : ℕ) (s : Db) (e : Error)
    → (start_session env pins ctx id s).0 ≡ err e
    → (start_session env pins ctx id s).1 ≡ s
unfolding start_session create_session
start_session_failed env pins ctx id s e h = ground arith

none_open :
    (sessions : List TableSession) (r t : ℕ)
    → count (is_open_at r t) sessions ≡ 0
    → find_first (is_open_at r t) sessions ≡ none
unfolding find_first count
none_open [] r t h = refl
none_open (y ∷ ys) r t h = ground (arith, none_open ys r t (ground arith))

last_open :
    (sessions : List TableSession) (x : TableSession) (r t : ℕ)
    → count (is_open_at r t) sessions ≡ 0
    → is_open_at r t x ≡ true
    → find_first (is_open_at r t) (sessions ++ (x ∷ [])) ≡ some x
unfolding find_first count
last_open [] x r t h k = ground arith
last_open (y ∷ ys) x r t h k = ground (arith, last_open ys x r t (ground arith) k)

start_session_ok :
    (env : Env) (pins : Pins) (ctx : TenantContext) (id : ℕ) (s : Db) (v : Started)
    → (start_session env pins ctx id s).0 ≡ ok v
    → (t : RestaurantTable) × (find_table ctx.restaurant_id id s ≡ some t)
      × (count (is_open_at ctx.restaurant_id t.id) s.sessions ≡ 0)
      × ((start_session env pins ctx id s).1.sessions
          ≡ s.sessions ++ (new_session env pins ctx t v.pin s ∷ []))
unfolding start_session create_session
start_session_ok env pins ctx id s v h = elim (Option-cases (find_table ctx.restaurant_id id s)) [
  | inl e ↦ absurd (ground (arith, e))
  | inr (t, e) ↦ (t, e, ground (arith, e), ground (arith, e))
]

abbrev pub IsStarted : Env → Pins → TenantContext → ℕ → Db → Started → Type 0
IsStarted env pins ctx id s v =
    (t : RestaurantTable) × (x : TableSession) × (find_table ctx.restaurant_id id s ≡ some t)
    × (find_active_session_by_table ctx.restaurant_id t.id s ≡ none)
    × (find_active_session_by_table ctx.restaurant_id t.id (start_session env pins ctx id s).1
        ≡ some x)
    × (x.pin_hash ≡ pins.hash v.pin)

-- A start keeps every table at one open session at most, whether it succeeds or fails. When it succeeds,
-- the table was found and had no open session, and the one that is found there now has the hash of the
-- PIN that is returned.
pub start_session-IsSeated :
    (env : Env) (pins : Pins) (ctx : TenantContext) (id : ℕ) (s : Db)
    → IsSeated s.sessions
    → IsSeated (start_session env pins ctx id s).1.sessions
      × ((v : Started) → (start_session env pins ctx id s).0 ≡ ok v → IsStarted env pins ctx id s v)
unfolding find_active_session_by_table
start_session-IsSeated env pins ctx id s h =
    (seated (start_session env pins ctx id s).0 refl, started)
  where
    seated :
        (r : Result Started)
        → (start_session env pins ctx id s).0 ≡ r
        → IsSeated (start_session env pins ctx id s).1.sessions
    seated (ok v) e =
        let (t, found, free, after) = start_session_ok env pins ctx id s v e in
        rw after (append-IsSeated s.sessions (new_session env pins ctx t v.pin s) free h)
    seated (err x) e = rw (start_session_failed env pins ctx id s x e) h

    started :
        (v : Started) → (start_session env pins ctx id s).0 ≡ ok v → IsStarted env pins ctx id s v
    started v e =
        let (t, found, free, after) = start_session_ok env pins ctx id s v e in
        (
          t,
          new_session env pins ctx t v.pin s,
          found,
          none_open s.sessions ctx.restaurant_id t.id free,
          rw after (
              last_open s.sessions (new_session env pins ctx t v.pin s) ctx.restaurant_id t.id free
                (ground arith)),
          refl,
        )
