-- ===== src/Domains.antt =====
-- domains/: the types that the order and the market data packages share.
pub mod Decimal
pub mod Commons
