-- ===== src/Env.antt =====
-- What a request takes from outside the repository: the clock, the date format of the platform, the
-- database's generator of identifiers, and the rounding of a binary fraction to two decimals.
use Prim.Native.String.{String}
use restaurant_management_ba.Base.{ℕ, ◌+◌, ◌*◌, ◌≤◌, ◌≡◌, Option, ◌==◌}
use restaurant_management_ba.Model.{Db, Order}
use restaurant_management_ba.Store.{count}

pub record Env : Type 0 where
  -- `Date.now()` and `new Date()`
  pub now : ℕ
  -- the date in a named time zone, `none` where `Intl.DateTimeFormat` throws on the name
  pub format_in : String → Option String
  -- the date in the server's own zone
  pub format_local : String
  -- `cuid()`, for the next order
  pub new_id : Db → ℕ
  -- `Number(x.toFixed(2))`, in cents, of an amount in ten-thousandths of a cent
  pub to_fixed : ℕ → ℕ
  -- how many parts of a cent the numbers of this request are counted in: a number that is not a whole
  -- number of cents is a whole number of parts of some size
  pub parts : ℕ
  -- the cents that a Decimal(10, 2) column stores of a number, counted in parts
  pub to_column : ℕ → ℕ

-- What the code relies on: a new identifier is not in use, a rounded amount is at most half a cent away (a
-- tie may go either way, since the binary fraction is not exact), and a column stores a whole number of
-- cents as it is.
pub record IsEnv (env : Env) : Type 0 where
  pub fresh : (s : Db) → count (λ (o : Order). o.id == env.new_id s) s.orders ≡ 0
  pub round_le : (x : ℕ) → 10000 * env.to_fixed x ≤ x + 5000
  pub le_round : (x : ℕ) → x ≤ 10000 * env.to_fixed x + 5000
  pub stored : (n : ℕ) → env.to_column (n * env.parts) ≡ n

-- A number of parts that is a whole number of cents.
abbrev pub IsWhole : Env → ℕ → Type 0
IsWhole env x = (n : ℕ) × (x ≡ n * env.parts)
