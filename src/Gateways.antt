-- ===== src/Gateways.antt =====
-- internal/gateways/: what stands between the exchanges and the dealer.
pub mod Bybit
pub mod Coinex
pub mod Translations
pub mod Messages
pub mod Agents
pub mod Author
pub mod HealthChecker
pub mod Channel
pub mod Topics
pub mod Managers
pub mod Latency
pub mod RateLimiter
pub mod TtlCache
pub mod Examples
