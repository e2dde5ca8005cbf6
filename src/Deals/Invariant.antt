-- ===== src/Deals/Invariant.antt =====
-- What holds of the dealer's books between two calls, for domains/deals/: which orders are living,
-- done or unrelated, and how that agrees with their statuses.
pub mod Books
pub mod Changes
pub mod Unrelated
pub mod Outcomes
pub mod Operations
pub mod Amendments
pub mod Handled
pub mod Streamed
pub mod Batches
pub mod Creates
pub mod Steps
