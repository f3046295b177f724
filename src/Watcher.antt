-- ===== src/Watcher.antt =====
-- The watcher process (watcher/): one per chain.
pub mod Rpc
pub mod Store
pub mod Traversal
mod Tests
