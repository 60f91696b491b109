-- ===== src/Storage/Runs.antt =====
-- app/internal/storage/sqlite: operation runs, their execution facts and their journals.
pub mod Tables
pub mod Facts
pub mod Journal
pub mod Checkpoint
pub mod Log
pub mod Append
pub mod Kept
pub mod Stages
pub mod Durable
pub mod Saved
pub mod Invariant
pub mod Sound
pub mod Entries
pub mod Listed
pub mod History
pub mod Recovery
pub mod Plan
pub mod Planned
pub mod Cancel
pub mod Settled
pub mod Canceled
pub mod Repeated
pub mod Calls
