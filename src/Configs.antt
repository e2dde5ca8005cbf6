-- ===== src/Configs.antt =====
-- configs/: the parameters and the secrets of a strategy, and what a change of their files does.
pub mod Params
pub mod Getters
pub mod LastGood
pub mod Secret
pub mod Watcher
pub mod Examples
