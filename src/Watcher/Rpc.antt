-- ===== src/Watcher/Rpc.antt =====
-- Access to the providers of one chain (watcher/rpc/).
pub mod Errors
pub mod Breaker
pub mod Budget
pub mod Pool
pub mod Logs
mod Tests
mod Runs
