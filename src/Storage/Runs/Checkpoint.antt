-- ===== src/Storage/Runs/Checkpoint.antt =====
-- app/internal/storage/sqlite/operation_checkpoint.go, operation_journal.go and operation_runs.go: the
-- transactions that advance a run and its journal together, and the one that adds facts only.
use setpoint_ci_mirror.Base.{
  ℕ, Bool, ◌&&◌, ◌||◌, Option, none, some, Result, ok, err, ◌>>=◌, ◌>>◌, require, eqb,
  if◌then◌else◌, ◌==◌,
}
use setpoint_ci_mirror.Base.Text.{Text, text_eq}
use setpoint_ci_mirror.Operation.State.{State, state_eq, valid_state, can_transition}
use setpoint_ci_mirror.Operation.Journal.{JournalEntry}
use setpoint_ci_mirror.OperationRun.{OperationRun, ExecutionSnapshot, Recovery, no_facts}
use setpoint_ci_mirror.Storage.Tx.{transact}
use setpoint_ci_mirror.Storage.Runs.Tables.{
  RunTables, RunError, journal_mismatch, different_facts, invalid_state, invalid_transition,
  run_moved, get_operation_run, update_runs,
}
use setpoint_ci_mirror.Storage.Runs.Facts.{merge_snapshot, validate_snapshot}
use setpoint_ci_mirror.Storage.Runs.Journal.{Codec, read_entry, same_entry, append_entry, checked}

-- The arguments of `SaveOperationExecutionCheckpoint`.
pub record Update : Type 0 where
  pub run_id : Text
  pub state : State
  pub checkpoint : Text
  pub snapshot : ExecutionSnapshot
  pub recovery : Option Recovery
  pub at : ℕ

abbrev pub or_kept : Option Recovery → Option Recovery → Option Recovery
or_kept current none = current
or_kept current (some r) = some r

-- The columns that a checkpoint writes.
abbrev pub advanced : Update → Option ExecutionSnapshot → OperationRun → OperationRun
advanced u merged r = record r {
  state = u.state;
  checkpoint = u.checkpoint;
  execution = merged;
  recovery = or_kept r.recovery u.recovery;
  updated_at = u.at;
}

abbrev pub save_found :
    Codec
    → Update
    → JournalEntry
    → RunTables
    → OperationRun
    → Option JournalEntry
    → Result RunError (OperationRun × RunTables)
save_found codec u entry t current (some existing) =
    if same_entry existing entry then ok (current, t) else err (different_facts entry.sequence)
save_found codec u entry t current none = do
  require (valid_state u.state) (invalid_state u.state)
  require (u.state == current.state || can_transition current.state u.state)
      (invalid_transition current.state u.state)
  merged ← merge_snapshot current.execution u.snapshot
  validate_snapshot merged u.at
  journal ← append_entry codec entry t.journal
  ok (
    advanced u merged current,
    record { runs = update_runs u.run_id (advanced u merged) t.runs; journal = journal },
  )

abbrev pub matches : Update → JournalEntry → Bool
matches u entry =
    entry.run_id == u.run_id
    && entry.state == u.state
    && entry.checkpoint == u.checkpoint
    && eqb entry.at u.at

-- `saveOperationExecutionCheckpointTx`
unfoldable pub save_checkpoint_tx :
    Codec → Update → JournalEntry → RunTables → Result RunError (OperationRun × RunTables)
save_checkpoint_tx codec u entry t = do
  require (matches u entry) journal_mismatch
  checked entry
  current ← get_operation_run u.run_id t
  existing ← read_entry codec u.run_id entry.sequence t.journal
  save_found codec u entry t current existing

-- `store.GetOperationRun` after the commit
abbrev pub reread :
    Text → Result RunError OperationRun × RunTables → Result RunError OperationRun × RunTables
reread id (ok _, t) = (get_operation_run id t, t)
reread id (err e, t) = (err e, t)

-- `SaveOperationExecutionCheckpoint`
unfoldable pub save_checkpoint :
    Codec → Update → JournalEntry → RunTables → Result RunError OperationRun × RunTables
unfolding save_checkpoint_tx
save_checkpoint codec u entry t = reread u.run_id (transact t (save_checkpoint_tx codec u entry t))

-- The arguments that `Append` passes on
abbrev pub as_update : JournalEntry → Update
as_update entry = record {
  run_id = entry.run_id;
  state = entry.state;
  checkpoint = entry.checkpoint;
  snapshot = no_facts;
  recovery = none;
  at = entry.at;
}

-- `Append`
unfoldable pub append : Codec → JournalEntry → RunTables → Result RunError OperationRun × RunTables
unfolding save_checkpoint
append codec entry t = save_checkpoint codec (as_update entry) entry t

-- The columns that a snapshot writes.
abbrev pub supplemented : Update → Option ExecutionSnapshot → OperationRun → OperationRun
supplemented u merged r = record r {
  execution = merged;
  recovery = or_kept r.recovery u.recovery;
  updated_at = u.at;
}

unfoldable pub save_snapshot_tx : Update → RunTables → Result RunError (OperationRun × RunTables)
save_snapshot_tx u t = do
  current ← get_operation_run u.run_id t
  require (valid_state u.state) (invalid_state u.state)
  require (u.state == current.state && u.checkpoint == current.checkpoint) run_moved
  merged ← merge_snapshot current.execution u.snapshot
  validate_snapshot merged u.at
  ok (current, record t { runs = update_runs u.run_id (supplemented u merged) t.runs })

-- `SaveOperationExecutionSnapshot`
unfoldable pub save_snapshot : Update → RunTables → Result RunError OperationRun × RunTables
unfolding save_snapshot_tx
save_snapshot u t = reread u.run_id (transact t (save_snapshot_tx u t))
