-- ===== src/Storage/Runs/Cancel.antt =====
-- app/internal/storage/sqlite/operation_runs.go: `CancelOperationRun`, one transaction over the runs with
-- their journal and over the tasks with their events. A task's specification is a text, from which
-- `contract_of` reads the contract of an operation execution, if it has one.
use setpoint_ci_mirror.Base.{
  ℕ, ◌+◌, Bool, true, false, not, ◌&&◌, ◌||◌, Option, none, some, List, [], ◌∷◌, ◌++◌, Result, ok,
  err, ◌>>=◌, ◌>>◌, require, ltb, if◌then◌else◌, ◌==◌,
}
use setpoint_ci_mirror.Base.Int.{ℤ}
use setpoint_ci_mirror.Base.Text.{Text, codes, text_eq}
use setpoint_ci_mirror.Operation.State.{
  State, state_eq, can_transition, creating_restore_point, canceled_before_apply,
}
use setpoint_ci_mirror.Operation.Journal.{JournalEntry, sequence_not_positive}
use setpoint_ci_mirror.OperationRun.{
  OperationRun, ExecutionSnapshot, StageExecutionSnapshot, Recovery,
}
use setpoint_ci_mirror.Task.Phase.{
  Phase, pending, claimed, running, cancel_requested, canceled, terminal_phase,
}
use setpoint_ci_mirror.Task.Execution.{
  Action, create_restore_point, apply, verify, rollback, verify_rollback, other_action,
  ExecutionContract, is_given,
}
use setpoint_ci_mirror.Storage.Tx.{transact}
use setpoint_ci_mirror.Storage.Tasks.{TaskRow, TaskEvent, read_task, update}
use setpoint_ci_mirror.Storage.Runs.Tables.{
  JournalRow, RunTables, RunError, get_operation_run, update_runs, bad_entry,
}
use setpoint_ci_mirror.Storage.Runs.Journal.{
  Codec, append_entry, checked, newest, rows_of, max_sequence,
}
use setpoint_ci_mirror.Storage.Runs.Recovery.{execution_state_requires_journal}

pub record CancelTables : Type 0 where
  pub stored : RunTables
  pub tasks : List TaskRow
  pub events : List TaskEvent

-- `json.Unmarshal` of a specification, and the number that `%d` prints
pub record CancelTexts : Type 0 where
  pub codec : Codec
  pub contract_of : Text → Option ExecutionContract
  pub decimal : ℤ → Text

pub data CancelError : Type 0 where
  run_error : RunError → CancelError
  task_missing diverged no_journal : CancelError
  state_not_cancelable : State → CancelError
  phase_not_cancelable : Phase → CancelError

abbrev pub from_runs : {A : Type 0} → Result RunError A → Result CancelError A
from_runs (ok a) = ok a
from_runs (err e) = err (run_error e)

abbrev pub has_uncontained_stage : List StageExecutionSnapshot → Bool
has_uncontained_stage [] = false
has_uncontained_stage (s ∷ ss) =
    is_given s.apply && not (is_given s.rollback_verification) || has_uncontained_stage ss

abbrev pub is_uncontained : Option ExecutionSnapshot → Bool
is_uncontained none = false
is_uncontained (some x) =
    is_given x.apply && not (is_given x.rollback_verification) || has_uncontained_stage x.stages

-- `operationRunHasUncontainedApply`
unfoldable pub has_uncontained_apply : OperationRun → Bool
has_uncontained_apply run = is_uncontained run.execution

abbrev pub is_containment : OperationRun → Bool
is_containment run = run.state == creating_restore_point && has_uncontained_apply run

abbrev pub action_text : Action → Text
action_text create_restore_point = codes "create_restore_point"
action_text apply = codes "apply"
action_text verify = codes "verify"
action_text rollback = codes "rollback"
action_text verify_rollback = codes "verify_rollback"
action_text (other_action t) = t

abbrev pub is_several : List Text → Bool
is_several [] = false
is_several (p ∷ []) = false
is_several (p ∷ q ∷ ps) = true

-- `operationContractResultCheckpoint`, for a phase with the text `phase`
unfoldable pub contract_result_checkpoint : (ℤ → Text) → Text → ExecutionContract → Text
contract_result_checkpoint decimal phase c =
    let checkpoint = codes "action_" ++ action_text c.action ++ codes "_" ++ phase in
    if is_several c.participant_node_ids
    then codes "stage_" ++ decimal c.stage_index ++ codes "_" ++ checkpoint
    else checkpoint

abbrev pub or_checkpoint : (ℤ → Text) → Text → Option ExecutionContract → Text
or_checkpoint decimal kept none = kept
or_checkpoint decimal kept (some c) = contract_result_checkpoint decimal (codes "canceled") c

-- The row and the event of the task's cancellation
abbrev pub task_moved : Text → Text → Phase → Option Text → Text → CancelTables → CancelTables
task_moved id at phase completed event_type t = record t {
  tasks =
      update (λ x. x.id == id)
        (λ (x : TaskRow). record x {
          phase = phase;
          cancel_requested_at = some at;
          completed_at = completed;
          updated_at = at;
        })
        t.tasks;
  events = record { task_id = id; phase = phase; event_type = event_type; at = at } ∷ t.events;
}

abbrev pub is_requested : Option Recovery → Bool
is_requested none = false
is_requested (some r) = r.code == codes "cancellation_requested"

abbrev pub run_task : Option TaskRow → Result CancelError TaskRow
run_task none = err task_missing
run_task (some r) = ok r

module _ (texts : CancelTexts) (at : ℕ) (run : OperationRun) where
  abbrev pub stamp : Text
  stamp = texts.codec.format_time at

  -- The task of the run, with the checkpoint that its cancellation leaves
  abbrev pub cancel_run_task :
      CancelTables → TaskRow → Phase → Result CancelError (Text × CancelTables)
  cancel_run_task t r pending = ok (
    if is_containment run
        then or_checkpoint texts.decimal run.checkpoint (texts.contract_of r.spec)
        else run.checkpoint,
    task_moved r.id stamp canceled (some stamp) (codes "canceled_before_claim") t,
  )
  cancel_run_task t r claimed = ok (
    run.checkpoint,
    task_moved r.id stamp cancel_requested none (codes "cancellation_requested") t,
  )
  cancel_run_task t r running = ok (
    run.checkpoint,
    task_moved r.id stamp cancel_requested none (codes "cancellation_requested") t,
  )
  cancel_run_task t r cancel_requested = ok (run.checkpoint, t)
  cancel_run_task t r phase =
      if terminal_phase phase then ok (run.checkpoint, t) else err (phase_not_cancelable phase)

  -- The journal must stand where the run stands.
  abbrev pub check_tail : Option JournalRow → Result CancelError Unit
  check_tail (some tail) =
      require (tail.state == run.state && tail.checkpoint == run.checkpoint) diverged
  check_tail none = require (not (execution_state_requires_journal run.state)) no_journal

  -- `lastSequence + 1` on `int64`: the number after the largest one is negative and refused.
  abbrev pub next_sequence : Option JournalRow → Result CancelError ℕ
  next_sequence none = ok 1
  next_sequence (some tail) =
      if ltb tail.sequence max_sequence
      then ok (tail.sequence + 1)
      else err (run_error (bad_entry sequence_not_positive))

  abbrev pub cancel_entry : ℕ → State → Text → Text → JournalEntry
  cancel_entry sequence state checkpoint message = record {
    run_id = run.id;
    sequence = sequence;
    state = state;
    checkpoint = checkpoint;
    message = message;
    at = at;
    evidence = [];
  }

  -- `ValidateJournalEntry`, `appendOperationJournalEntryTx` and the update of the run
  unfoldable pub enter :
      JournalEntry → (OperationRun → OperationRun) → CancelTables → Result CancelError CancelTables
  enter e change t = do
    from_runs (checked e)
    journal ← from_runs (append_entry texts.codec e t.stored.journal)
    ok (record t {
      stored = record { runs = update_runs run.id change t.stored.runs; journal = journal };
    })

  abbrev pub contained : Text → OperationRun → OperationRun
  contained checkpoint r = record r {
    checkpoint = checkpoint;
    recovery = some (record {
      code = codes "cancellation_requested";
      checkpoint = checkpoint;
      safe_next = codes "rollback_applied_stages";
      manual_review = false;
    });
    updated_at = at;
  }

  -- The cancellation of a run whose Apply is not contained: the run stays, for its rollback.
  abbrev pub contain : Text → Option JournalRow → CancelTables → Result CancelError CancelTables
  contain checkpoint tail t = if is_requested run.recovery then ok t else (do
    sequence ← next_sequence tail
    enter
        (cancel_entry sequence run.state checkpoint (
          codes
            "operation cancellation requested after a durable participant Apply; containment retained"))
        (contained checkpoint) t)

  abbrev pub ended : OperationRun → OperationRun
  ended r = record r {
    state = canceled_before_apply;
    checkpoint = codes "canceled_before_apply";
    updated_at = at;
  }

  abbrev pub cancel_ended : Option JournalRow → CancelTables → Result CancelError CancelTables
  cancel_ended none t =
      ok (record t { stored = record t.stored { runs = update_runs run.id ended t.stored.runs } })
  cancel_ended (some tail) t = do
    sequence ← next_sequence (some tail)
    enter
        (cancel_entry sequence canceled_before_apply (codes "canceled_before_apply")
          (codes "operation canceled before apply"))
        ended t

  abbrev pub finish_cancel :
      Text → Option JournalRow → CancelTables → Result CancelError CancelTables
  finish_cancel checkpoint tail t =
      if is_containment run then contain checkpoint tail t else cancel_ended tail t

  -- The transaction, for a run that is not canceled
  unfoldable pub cancel_active : CancelTables → Result CancelError CancelTables
  unfolding enter
  cancel_active t = do
    require (is_containment run || can_transition run.state canceled_before_apply)
        (state_not_cancelable run.state)
    r ← run_task (read_task run.task_id t.tasks)
    moved ← cancel_run_task t r r.phase
    let tail = newest (rows_of run.id t.stored.journal)
    check_tail tail
    finish_cancel moved.0 tail moved.1

-- The body of `CancelOperationRun`; a run that is canceled already is returned as it was read.
unfoldable pub cancel_run_tx :
    CancelTexts → ℕ → Text → CancelTables → Result CancelError (Option OperationRun × CancelTables)
unfolding cancel_active
cancel_run_tx texts at id t = do
  run ← from_runs (get_operation_run id t.stored)
  if run.state == canceled_before_apply
      then ok (some run, t)
      else cancel_active texts at run t >>= λ t'. ok (none, t')

abbrev pub cancel_answered :
    Text
    → Result CancelError (Option OperationRun) × CancelTables
    → Result CancelError OperationRun × CancelTables
cancel_answered id (ok (some run), t) = (ok run, t)
cancel_answered id (ok none, t) = (from_runs (get_operation_run id t.stored), t)
cancel_answered id (err e, t) = (err e, t)

-- `CancelOperationRun`
unfoldable pub cancel_operation_run :
    CancelTexts → ℕ → Text → CancelTables → Result CancelError OperationRun × CancelTables
unfolding cancel_run_tx
cancel_operation_run texts at id t = cancel_answered id (transact t (cancel_run_tx texts at id t))
