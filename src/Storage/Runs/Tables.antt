-- ===== src/Storage/Runs/Tables.antt =====
-- The tables `operation_runs` and `operation_journal` of app/internal/storage/sqlite (schema_v12.go).
-- A row of the first is the run that `scanOperationRun` reads from it, with its JSON columns decoded;
-- a row of the second keeps the texts of its time and its evidence. A failing database connection is
-- left out.
use setpoint_ci_mirror.Base.{
  ℕ, ◌≡◌, ap, arith, Option, none, some, List, Result, ok, err, find, replace, ◌==◌,
}
use setpoint_ci_mirror.Base.Members.{find-replace, find-replace_other}
use setpoint_ci_mirror.Base.Text.{Text, text_eq, text_beq_iff}
use setpoint_ci_mirror.Operation.State.{State}
use setpoint_ci_mirror.Operation.Journal.{JournalError}
use setpoint_ci_mirror.Operation.RestorePoint.{RestorePointError}
use setpoint_ci_mirror.OperationRun.{OperationRun}

pub record JournalRow : Type 0 where
  pub run_id : Text
  pub sequence : ℕ
  pub state : State
  pub checkpoint : Text
  pub message : Text
  pub at : Text
  pub evidence : Text

pub record RunTables : Type 0 where
  pub runs : List OperationRun
  pub journal : List JournalRow

pub data RunError : Type 0 where
  not_found journal_mismatch run_moved : RunError
  bad_entry : JournalError → RunError
  bad_time bad_evidence : RunError
  different_facts : ℕ → RunError
  must_start : ℕ → RunError
  must_advance : ℕ → ℕ → RunError
  journal_state invalid_transition : State → State → RunError
  invalid_state : State → RunError
  fact_rewritten : Text → RunError
  stage_identity stage_time_rewritten : RunError
  bad_restore_point : RestorePointError → RunError
  apply_needs_restore_point verification_needs_apply rollback_needs_both : RunError
  rollback_verification_needs_rollback stages_unordered : RunError

-- `SELECT … FROM operation_runs WHERE id = ?`
abbrev pub read_run : Text → List OperationRun → Option OperationRun
read_run id rows = find (λ r. r.id == id) rows

abbrev pub found_run : Option OperationRun → Result RunError OperationRun
found_run none = err not_found
found_run (some r) = ok r

-- `GetOperationRun`
abbrev pub get_operation_run : Text → RunTables → Result RunError OperationRun
get_operation_run id t = found_run (read_run id t.runs)

-- `UPDATE operation_runs SET … WHERE id = ?`
abbrev pub update_runs :
    Text → (OperationRun → OperationRun) → List OperationRun → List OperationRun
update_runs id change rows = replace (λ r. r.id == id) change rows

module _ (id : Text) (change : OperationRun → OperationRun) where
  -- The run that was updated reads as changed.
  pub read_run-update :
      (rows : List OperationRun) {run : OperationRun}
      → ((r : OperationRun) → (change r).id ≡ r.id)
      → read_run id rows ≡ some run
      → read_run id (update_runs id change rows) ≡ some (change run)
  read_run-update rows keeps h =
      find-replace (λ r. r.id == id) change rows (λ r. ap (λ t. t == id) (keeps r)) h

  -- The other runs read as they were.
  pub read_run-update_other :
      (other : Text) (rows : List OperationRun)
      → ((r : OperationRun) → (change r).id ≡ r.id)
      → (other ≡ id → ⊥)
      → read_run other (update_runs id change rows) ≡ read_run other rows
  read_run-update_other other rows keeps apart =
      find-replace_other (λ r. r.id == id) change (λ r. r.id == other) rows
        (λ r. ap (λ t. t == other) (keeps r))
        (λ r same. ground (arith, text_beq_iff r.id id, text_beq_iff r.id other, apart))
