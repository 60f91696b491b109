-- ===== src/Lib.antt =====
-- Setpoint is a server and an agent that check hosts and carry out guarded changes on them. This
-- library models the core of its server, in app/internal.
--
-- Base: shared types, lists, results and texts. A text is the list of its code points.
-- Operation: the package app/internal/operation. State is state.go, the transition table of a run, with
--   Steps on single transitions and Trails on whole runs. Target and Metadata are metadata.go. Lock is
--   lock.go, with Normal, Stable and Coverage on lock requests and leases. Definition is definition.go,
--   Journal is journal.go and RestorePoint is restore_point.go. Coordinator is lifecycle.go: Prepare is
--   the method Prepare, Execute is ExecuteConfirmed and Finish has the early ends up to rollback. Trace
--   says what the coordinator may do at each point, and Advance, Ending, Restored, Rollback, Written,
--   Prewrite, Safety and Protocol prove that it does no more; Prepare has Failure and Ready on how it
--   ends. Supervisor is lease_supervisor.go, one function for each critical section, with Granted on
--   the leases that it hands out, Effects on its sections and Steps on their interleavings. Equal is
--   reflect.DeepEqual. Planning is planning.go, with Endings and Outcome on how a planning ends.
--   Registry is registry.go, with Catalog on what it lists.
-- OperationRun: the package app/internal/operationrun, the records of operationrun.go. Stages is
--   stages.go with app/internal/operation/stage.go, and Sequence is about the stages that it accepts.
-- Remediation: Metadata is app/internal/plugin/remediation.go and Registry is
--   app/internal/remediation/binding.go; Reviewed is about what it accepts and resolves.
-- CheckRun: app/internal/checkrun/checkrun.go. Aggregate is the status of a check run and Offers its
--   remediation offers, with Counts, Phases and Actionable on them.
-- Storage: the package app/internal/storage/sqlite. Tx is a transaction and Locks is
--   operation_locks.go, the lock manager that the coordinator uses. Tasks is tasks.go: how an agent
--   claims, acknowledges and completes a task, and how a task is canceled. Runs is the store of
--   operation runs: Tables, Facts (the merge of execution facts), Journal and Checkpoint are
--   operation_runs.go, operation_checkpoint.go and operation_journal.go, Recovery is
--   operation_runtime_recovery.go; Log is the append-only log that a journal implements, Invariant is
--   what the tables keep, and Append, Listed, Saved, Entries, Kept, Stages, Durable, Sound and History
--   are about the calls, and Repeated is about a call that is sent again. Cancel is CancelOperationRun,
--   a transaction over the runs and their tasks, with Settled and Canceled on what it leaves, and Calls
--   on its interleavings with the calls that save. Plan is the result of a planning that a run takes,
--   with Planned on it.
-- Task: the package app/internal/task. Phase and Item are the phases and the check items of task.go,
--   and Contract is result_contract.go. Execution is operation_execution_contract.go, the frozen
--   contract of an action, with Accepted on what it holds; it stands on the stages of OperationRun.
-- Tests: the definitions on small inputs.
--
-- The coordinator is generic in its services: the lock manager, the journal, the restore points, the
-- operation definition, the clock, the caller's context and the lease session are fields of a record
-- over a state of the outside world that each call may change. World adds the record of the calls,
-- which the proofs speak of. Prepare hands its run to ExecuteConfirmed by the state
-- awaiting_confirmation. No loop needs fuel: each one runs over a list.
--
-- The supervisor gives its mutex up while it asks the lock manager, so that its methods are two
-- sections each, which a relation composes in any order with any answers. The texts of times and
-- evidence in the journal are written and read by a parameter whose laws are those of encoding/json
-- and time; reflect.DeepEqual takes a nil slice for an empty one.
--
-- Times and durations are nanoseconds, and 0 is the zero time; the parameter for the texts of times is
-- taken to read back every time, where Go reads those up to the year 9999. The sequence number that the
-- coordinator counts with is unbounded, where Go has an int64; the store bounds it. Database rows are
-- records in lists, with the keys of the schema checked at each insertion, and the JSON and time columns
-- of a run's row hold the values themselves. An error inside a transaction rolls it back. A failing
-- connection, a canceled context and an unreadable row are left out: a commit succeeds, and the read of
-- the run after it fails only if there is no run.
--
-- Not modelled: the creation of tasks, the creation of runs, the application of operation results
-- (a report with one is left out of the completion of a task), the operation plugins, the HTTP
-- interface, the agent, and the web console.
pub mod Base
pub mod Operation
pub mod OperationRun
pub mod Remediation
pub mod CheckRun
pub mod Storage
pub mod Task
pub mod Tests
