-- ===== src/Operation.antt =====
-- app/internal/operation
pub mod State
pub mod Target
pub mod Lock
pub mod Definition
pub mod Metadata
pub mod Journal
pub mod RestorePoint
pub mod Equal
pub mod Coordinator
pub mod Supervisor
pub mod Planning
pub mod Registry
