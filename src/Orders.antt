-- ===== src/Orders.antt =====
-- src/modules/orders: the life of an order, from its creation to its payment and refund.
pub mod Transitions
pub mod Find
pub mod Create
pub mod Append
pub mod Changes
pub mod Service
pub mod Outcome
pub mod Graph
pub mod Evolution
pub mod Requests
pub mod Monotone
pub mod Growth
pub mod Invariant
pub mod Sound
pub mod Creation
pub mod Appending
pub mod Trace
pub mod Scenario
pub mod Examples
pub mod Once
pub mod Numbers
pub mod Pricing
pub mod Place
pub mod Charged
pub mod Placed
pub mod Discounts
pub mod PlaceExamples
