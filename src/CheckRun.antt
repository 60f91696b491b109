-- ===== src/CheckRun.antt =====
-- app/internal/checkrun/checkrun.go: what a check run shows of its tasks.
pub mod Aggregate
pub mod Counts
pub mod Offers
pub mod Phases
pub mod Actionable
