-- ===== src/Lib.antt =====
-- The restaurant management backend: orders, coupons, table sessions, customers and staff
-- of a restaurant's branches.
--
-- The program is an Express service over one PostgreSQL database (prisma/schema.prisma). A request
-- names the caller's restaurant and a branch; a service (src/modules/*/*.service.js) reads rows, checks
-- them and writes through a repository (*.repository.js), in a transaction where several tables change.
-- Several requests run at once, so an order carries a version, and an update names the version that the
-- client saw. The parts here meet in the table of orders: an order uses a coupon, occupies a table, and
-- belongs to a branch whose settings number it, and the rounds of a table session become its items.
--
-- Files.
--   Base: names of the libraries, tests on numbers, sums, and the texts that the source asks about.
--   Model: prisma/schema.prisma. An enum is a data type, a model a record, a table a list of rows in the
--     order of creation; Db is all the tables together. Identifiers are numbers, amounts are cents.
--   Exec: src/shared/errors/domain-errors.js and prisma.$transaction. An operation takes the database and
--     returns a result or an error, with the database; a transaction that throws restores it.
--   Store: findFirst, findMany, count, updateMany and ordering by a column, with the laws of updates.
--   Env: the clock, the date format, the generator of identifiers and the roundings of a request.
--   Coupons: src/modules/coupons/coupon.service.js. Rules is validateCouponRules, Apply is
--     applyCouponForOrderInTransaction, Bounds what they imply.
--   Orders: src/modules/orders. Find, Create, Append and Changes are order.repository.js, Transitions and
--     Service are order.service.js. Graph is the state machine of an order, Evolution what an order may
--     become, Outcome and Requests what each transaction and operation does on each branch, Monotone the
--     operations under interleaving, Invariant, Sound, Creation and Appending what they keep, Once the
--     idempotency keys, Numbers the daily numbers, Trace sequences of requests. Scenario holds the data of
--     Examples, which runs the theorems at concrete inputs.
--   Customers: src/modules/customers, on tables of its own (People). Names and Change are the texts and the
--     writes of customers, Addresses those of addresses. Defaults, Kept and Settled are about the default
--     address, Numbers and Phones about the numbers of a new customer, Callers about callers and Again about
--     callers who call again.
--   Orders, the creation by the service: Pricing and Place are createOrder and createPosOrder of
--     order.service.js, on all the tables together (World); Charged is about prices, Placed and Discounts
--     about what a creation keeps and needs, PlaceExamples runs them.
--   Paging: src/shared/utils/pagination.js. Slices and Ceiling are about lists and rounded-up quotients, Covered
--     about the pages of a list put together.
--   Staff: on tables of its own. Login is src/modules/auth, Access its authorize.middleware.js with the
--     cache of src/shared/utils/cache.js and src/shared/middleware/require-branch-access.js, Employees is
--     src/modules/employees, Roles is src/modules/roles. Devices is about logins, Ended about sessions and
--     tokens that end, Cached, Coherent, Regranted, Served and Uncached about the cache of permissions.
--     Scenario holds the data of Examples.
--   Sessions: src/modules/table-sessions. Find, Pin, Items, Calls, Rounds and Confirm are
--     table-session.service.js with the queries of table-session.repository.js: what is read, starting and
--     joining, the draft, waiter calls, submitting, rejecting and closing, and the confirmation of a round
--     into an order. Alike and Kept say what they keep of the orders, Seats is about
--     starts, Lockout about wrong PINs, Returned about a round that is sent back, Trace about sequences of
--     requests.
--
-- Interleaving. The isolation that the source relies on is that a transaction's guarded updates see
-- the rows as they are then. So an operation of the service is a read, then whatever other requests
-- write (the argument `meanwhile`), then its transaction; a creation with its retries is a sequence of
-- transactions with other writes between them (`between`). An operation on a table session is taken as
-- uninterrupted, but for the confirmation, which has its own `meanwhile`.
--
-- Bounds. createOrderTransaction makes at most three attempts, as MAX_RETRIES says. Amounts are
-- natural numbers of cents, where the source has decimals with two digits; a subtraction stops at 0,
-- as Math.max(0, ...) does. A discount is computed in ten-thousandths of a cent, in which a percentage
-- with two digits is exact, and then rounded by `to_fixed`, of which only the distance is assumed.
-- The discount that a request asks for may be any number that is not negative: it is counted in parts of
-- a cent, of any size (`parts`), and the columns of the discount and the total round, each by itself
-- (`to_column`).
--
-- Not modelled: events, audit logs and notifications, which no operation reads; the listings; orders of
-- the public menu, by phone and by WhatsApp; the registration of a restaurant; the other modules of
-- src/modules, which are menus, tables, messages and reports. The hash of a PIN (Pins), tokens, password
-- hashes, lower case and the time at which Redis drops an entry (StaffEnv) are parameters, of which nothing
-- is assumed but what a theorem names; so is whether PostgreSQL answers a read in a transaction after a
-- statement in it failed. Redis is taken to do what it is asked. A look-up of
-- permissions is taken as uninterrupted, so the map of requests in flight of withCache, which lets look-ups
-- that run at once share one query, is left out, and so is where authenticate takes the token from.
pub mod Base
pub mod Exec
pub mod Model
pub mod Store
pub mod Env
pub mod Coupons
pub mod Orders
pub mod Sessions
pub mod Customers
pub mod Staff
pub mod Paging
