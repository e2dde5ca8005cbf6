-- ===== src/Deals/Final.antt =====
-- An order that is done stays as it is, whatever the dealer of domains/deals/ does from then on.
pub mod Held
pub mod Operations
pub mod Amendments
pub mod Handlers
pub mod Streams
pub mod Steps
pub mod Examples
