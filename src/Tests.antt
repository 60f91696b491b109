-- ===== src/Tests.antt =====
-- Runs of the definitions on small inputs.
mod States
mod Locks
mod Executions
mod Items
mod Tasks
mod Codec
mod Runs
mod CheckRuns
mod Supervisors
mod Plannings
mod Registries
mod Contracts
mod Cancels
