-- ===== src/Staff/Uncached.antt =====
-- What getEmployeePermissions answers is what its query says.
use restaurant_management_ba.Base.{
  ℕ, ◌≡◌, refl, sym, ap, ◌∙◌, Bool, ◌&&◌, Option, none, some, ◌==◌, arith, inl, inr, Option-cases,
}
use mathlib.Core.Path.{subst}
use restaurant_management_ba.Exec.{Result, ok, err, authorization, said}
use restaurant_management_ba.Store.{
  find_first, find_first_holds, All-find_first, IsKeyed, only_found,
}
use restaurant_management_ba.Staff.Rows.{Staff, StaffEnv, Employee, Granted}
use restaurant_management_ba.Staff.Access.{
  fetch_permissions, get_employee_permissions, read_cache, is_working, is_entry,
}
use restaurant_management_ba.Staff.Cached.{IsTrue, IsCoherent, fetch_permissions_lem, granted_in}

-- The query's answer, without a cache.
abbrev pub answer : Option Granted → Result Granted
answer none = err (authorization (said "Employee or role not found"))
answer (some g) = ok g

abbrev pub works_for : ℕ → ℕ → Employee → Bool
works_for r e x = x.id == e && x.restaurant_id == r

-- An employee whom the query finds at a restaurant works for that restaurant alone.
fetched_at :
    (e r k : ℕ) (s : Staff) (x : Employee) (g : Granted)
    → IsKeyed (λ y. y.id) s.employees
    → find_first (works_for r e) s.employees ≡ some x
    → fetch_permissions e k s ≡ some g
    → k ≡ r
unfolding granted_in
fetched_at e r k s x g keyed f h = elim (Option-cases (find_first (is_working k e) s.employees)) [
  | inl n ↦
      let nobody : none ≡ some g =
        sym
          (fetch_permissions_lem e k s ∙ ap (granted_in s.roles s.permissions s.role_permissions) n)
        ∙ h in
      absurd cc
  | inr (y, m) ↦
      let y_holds = find_first_holds (is_working k e) s.employees y m in
      let x_holds = find_first_holds (works_for r e) s.employees x f in
      let same =
        All-find_first (λ z. z.id ≡ x.id → z ≡ x) (is_working k e) s.employees y
          (only_found (λ z. z.id) (works_for r e) s.employees x keyed f) m in
      let one : y ≡ x = same (ground (arith, x_holds, y_holds)) in
      ground (arith, x_holds, y_holds, one)
]

-- For an employee of the restaurant, where no two employees have the same identifier and the entries of
-- the cache say what the tables say, getEmployeePermissions answers what its query says of the tables,
-- whether it finds an entry or not.
pub get_employee_permissions-answer :
    (env : StaffEnv) (e r : ℕ) (s : Staff) (x : Employee)
    → IsKeyed (λ y. y.id) s.employees
    → find_first (works_for r e) s.employees ≡ some x
    → IsCoherent s
    → (get_employee_permissions env e r s).0 ≡ answer (fetch_permissions e r s)
unfolding get_employee_permissions read_cache
get_employee_permissions-answer env e r s x keyed f h =
    elim (Option-cases (find_first (λ c. is_entry e c && env.is_kept c) s.cache)) [
      | inl n ↦
          let miss : read_cache env e s ≡ none = rw (read_cache, n) refl in
          elim (Option-cases (fetch_permissions e r s)) [
            | inl m ↦ rw (get_employee_permissions, miss, m) refl
            | inr (g, m) ↦ rw (get_employee_permissions, miss, m) refl
          ]
      | inr (c, n) ↦
          let hit : read_cache env e s ≡ some c.granted = rw (read_cache, n) refl in
          let own : c.employee_id ≡ e =
            ground (arith, find_first_holds (λ d. is_entry e d && env.is_kept d) s.cache c n) in
          let (k, says) =
            All-find_first (IsTrue s) (λ d. is_entry e d && env.is_kept d) s.cache c h n in
          let said_of_e : fetch_permissions e k s ≡ some c.granted =
            subst (λ i. fetch_permissions i k s ≡ some c.granted) own says in
          let here : fetch_permissions e r s ≡ some c.granted =
            subst (λ j. fetch_permissions e j s ≡ some c.granted)
              (fetched_at e r k s x c.granted keyed f said_of_e) said_of_e in
          rw (get_employee_permissions, hit, here) refl
    ]
