-- ===== src/Tests/Cancels.antt =====
-- Cancellations of operation runs.
use setpoint_ci_mirror.Base.{List, ◌≡◌, refl, false, some, none, [], ◌∷◌, ok, err}
use setpoint_ci_mirror.Base.Text.{codes, text_beq, trim_space}
use setpoint_ci_mirror.Operation.State.{
  queued, acquiring_lock, running, creating_restore_point, canceled_before_apply, can_transition,
  state_beq, valid_state,
}
use setpoint_ci_mirror.Operation.Definition.{zero_apply}
use setpoint_ci_mirror.Operation.Journal.{validate_journal_entry}
use setpoint_ci_mirror.OperationRun.{OperationRun, no_facts}
use setpoint_ci_mirror.Storage.Runs.Tables.{RunTables}
use setpoint_ci_mirror.Storage.Runs.Facts.{merge_snapshot, validate_snapshot}
use setpoint_ci_mirror.Storage.Runs.Journal.{append_entry, newest}
use setpoint_ci_mirror.Storage.Runs.Checkpoint.{append}
use setpoint_ci_mirror.Storage.Runs.History.{entry, serve_runs, serve_runs-IsSound}
use setpoint_ci_mirror.Storage.Runs.Cancel.{
  CancelTables, CancelTexts, cancel_operation_run, state_not_cancelable,
}
use setpoint_ci_mirror.Storage.Runs.Settled.{Safe}
use setpoint_ci_mirror.Storage.Runs.Calls.{StoreCall, save, cancel, serve_calls, serve_calls-Safe}
use setpoint_ci_mirror.Storage.Runs.Canceled.{Judged, cancel_operation_run-Judged}
use setpoint_ci_mirror.Tests.Codec.{codec, codec-CodecLaws}
use setpoint_ci_mirror.Tests.Runs.{run_in, fresh, fresh-IsSound, entry_of}
use setpoint_ci_mirror.Tests.Tasks.{task}

abbrev texts : CancelTexts
texts = record { codec = codec; contract_of = λ t. none; decimal = λ n. codes "0" }

-- A queued run whose task waits for its agent
abbrev waiting : RunTables
waiting = serve_runs codec (entry (entry_of 1 queued) ∷ []) fresh

abbrev waits : CancelTables
waits = record { stored = waiting; tasks = task ∷ []; events = [] }

canceled_run :
    (cancel_operation_run texts 20 (codes "r") waits).0
    ≡ ok (record (run_in canceled_before_apply) {
      checkpoint = codes "canceled_before_apply";
      updated_at = 20;
    })
unfolding cancel_operation_run append text_beq state_beq validate_journal_entry trim_space
    valid_state can_transition merge_snapshot validate_snapshot append_entry newest
canceled_run = refl

cancel_operation_run-Judged_example :
    Judged codec (codes "r") waits (cancel_operation_run texts 20 (codes "r") waits)
cancel_operation_run-Judged_example =
    cancel_operation_run-Judged texts codec-CodecLaws 20 (codes "r") waits (
      serve_runs-IsSound codec codec-CodecLaws (entry (entry_of 1 queued) ∷ []) fresh fresh-IsSound)

-- A run that is being applied is not canceled.
abbrev applying : CancelTables
applying = record waits { stored = record { runs = run_in running ∷ []; journal = [] } }

running_refused :
    (cancel_operation_run texts 20 (codes "r") applying).0 ≡ err (state_not_cancelable running)
unfolding cancel_operation_run text_beq state_beq can_transition
running_refused = refl

-- A run that creates the restore point of a later stage, where an earlier one is applied
abbrev staged : OperationRun
staged = record (run_in creating_restore_point) {
  checkpoint = codes "step";
  execution = some (record no_facts { apply = some zero_apply });
}

abbrev holding : CancelTables
holding = record waits {
  stored = record waiting {
    runs = staged ∷ [];
    journal =
        record {
          run_id = codes "r";
          sequence = 1;
          state = creating_restore_point;
          checkpoint = codes "step";
          message = codes "m";
          at = codec.format_time 1;
          evidence = codec.marshal [];
        }
        ∷ [];
  };
}

contained_run :
    (cancel_operation_run texts 20 (codes "r") holding).0
    ≡ ok (record staged {
      recovery = some (record {
        code = codes "cancellation_requested";
        checkpoint = codes "step";
        safe_next = codes "rollback_applied_stages";
        manual_review = false;
      });
      updated_at = 20;
    })
unfolding cancel_operation_run text_beq state_beq
    setpoint_ci_mirror.Storage.Runs.Cancel.has_uncontained_apply newest validate_journal_entry
    trim_space valid_state append_entry
contained_run = refl

-- A queued run that is canceled and then asked to go on
abbrev calls : List StoreCall
calls =
    save (entry (entry_of 1 queued))
    ∷ cancel 20 (codes "r")
    ∷ save (entry (entry_of 2 acquiring_lock))
    ∷ []

abbrev open_tables : CancelTables
open_tables = record { stored = fresh; tasks = task ∷ []; events = [] }

serve_calls-Safe_example : Safe codec fresh (serve_calls texts calls open_tables).stored
serve_calls-Safe_example = serve_calls-Safe texts codec-CodecLaws calls open_tables fresh-IsSound
