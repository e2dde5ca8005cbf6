-- ===== src/Deals.antt =====
-- domains/deals/: orders, the dealer of a symbol, and the reconciliation with the exchange.
pub mod Errors
pub mod Order
pub mod World
pub mod Outcome
pub mod Invariant
pub mod Final
pub mod Dealer
pub mod Messages
pub mod Handlers
pub mod Streams
pub mod Deferred
pub mod Race
pub mod Locks
pub mod Notices
pub mod Positions
pub mod AmendLimit
pub mod Samples
pub mod Examples
pub mod Incidents
