-- ===== src/Storage.antt =====
-- app/internal/storage/sqlite
pub mod Tx
pub mod Locks
pub mod Tasks
pub mod Runs
