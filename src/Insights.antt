-- ===== src/Insights.antt =====
-- domains/insights/: the market data that a strategy reads.
pub mod Quote
pub mod Tree
pub mod Levels
pub mod Book
pub mod Trade
pub mod Examples
