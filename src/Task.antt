-- ===== src/Task.antt =====
-- app/internal/task: task phases, and the check items and results that agents report.
pub mod Phase
pub mod Item
pub mod Contract
pub mod Execution
