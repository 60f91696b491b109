-- ===== src/Tests/Runs.antt =====
-- Runs of the store of operation runs.
use setpoint_ci_mirror.Base.{
  ℕ, arith, List, ◌≡◌, refl, some, none, [], ◌∷◌, ok, err, get_elem?, ◌-◌, ◌+◌,
}
use setpoint_ci_mirror.Base.Int.{pos}
use setpoint_ci_mirror.Base.Text.{codes, text_beq, trim_space}
use setpoint_ci_mirror.Operation.State.{
  State, awaiting_confirmation, queued, acquiring_lock, succeeded, valid_state, can_transition,
  state_beq,
}
use setpoint_ci_mirror.Operation.Journal.{JournalEntry, validate_journal_entry}
use setpoint_ci_mirror.OperationRun.{OperationRun}
use setpoint_ci_mirror.Storage.Runs.Tables.{RunTables, read_run, must_start, different_facts}
use setpoint_ci_mirror.Storage.Runs.Journal.{
  to_row, append_entry, list_journal, newest, max_sequence,
}
use setpoint_ci_mirror.Storage.Runs.Log.{append_log}
use setpoint_ci_mirror.Storage.Runs.Checkpoint.{
  as_update, save_checkpoint, save_checkpoint_tx, append,
}
use setpoint_ci_mirror.Storage.Runs.Append.{Refines, append_entry-Refines}
use setpoint_ci_mirror.Storage.Runs.Facts.{merge_snapshot, validate_snapshot}
use setpoint_ci_mirror.Storage.Runs.Invariant.{IsSound}
use setpoint_ci_mirror.Storage.Runs.Listed.{list_journal-append}
use setpoint_ci_mirror.Storage.Runs.History.{entry, serve_runs, AllLater, serve_runs-AllLater}
use setpoint_ci_mirror.Storage.Runs.Repeated.{save_checkpoint-again}
use setpoint_ci_mirror.Storage.Runs.Recovery.{
  execution_state_requires_journal, runtime_snapshot, load_runtime_snapshot,
  load_runtime_snapshot-IsSound,
}
use setpoint_ci_mirror.Tests.Codec.{codec, codec-CodecLaws}

abbrev pub run_in : State → OperationRun
run_in s = record {
  id = codes "r";
  idempotency_key = codes "k";
  created_at = 1;
  spec = record {
    operation_id = codes "op";
    operation_version = codes "1";
    capability_digest = [];
    node_id = codes "n";
    participant_node_ids = codes "n" ∷ [];
    targets = [];
    parameters = codes "{}";
    secret_refs = [];
  };
  state = s;
  checkpoint = codes "planned";
  task_id = codes "t";
  updated_at = 1;
  block = none;
  recovery = none;
  discovery = none;
  precheck = none;
  plan = none;
  impact = none;
  plan_digest = [];
  execution = none;
}

abbrev pub fresh : RunTables
fresh = record { runs = run_in awaiting_confirmation ∷ []; journal = [] }

abbrev ended : RunTables
ended = record { runs = run_in succeeded ∷ []; journal = [] }

abbrev pub entry_of : ℕ → State → JournalEntry
entry_of n s = record {
  run_id = codes "r";
  sequence = n;
  state = s;
  checkpoint = codes "step";
  message = codes "moved";
  at = 10 + n;
  evidence = record { id = codes "e"; kind = codes "log"; sha256 = codes "0" } ∷ [];
}

pub fresh-IsSound : IsSound codec fresh
fresh-IsSound run = record { log = []; rows = (refl, tt); level = λ r h. tt }

queued_valid : validate_journal_entry (entry_of 1 queued) ≡ ok tt
unfolding validate_journal_entry trim_space valid_state
queued_valid = refl

-- Two entries are listed in order.
list_two :
    list_journal codec
      (codes "r")
      (serve_runs codec (entry (entry_of 1 queued) ∷ entry (entry_of 2 acquiring_lock) ∷ []) fresh)
    ≡ ok (entry_of 1 queued ∷ entry_of 2 acquiring_lock ∷ [])
unfolding list_journal append text_beq state_beq validate_journal_entry trim_space valid_state
    can_transition merge_snapshot validate_snapshot append_entry newest
    setpoint_ci_mirror.Storage.Runs.Journal.read_rows
    setpoint_ci_mirror.Storage.Runs.Journal.sort_rows
list_two = refl

-- A number that is not the next one is refused, and so is a second entry with the same number.
skip_refused : (append codec (entry_of 2 queued) fresh).0 ≡ err (must_start 2)
unfolding append text_beq state_beq validate_journal_entry trim_space valid_state can_transition
    merge_snapshot validate_snapshot append_entry newest
skip_refused = refl

changed_refused :
    (append codec
      (entry_of 1 acquiring_lock)
      (serve_runs codec (entry (entry_of 1 queued) ∷ []) fresh)).0
    ≡ err (different_facts 1)
unfolding append text_beq state_beq validate_journal_entry trim_space valid_state can_transition
    merge_snapshot validate_snapshot append_entry newest
changed_refused = refl

append_entry-Refines_example :
    Refines codec
      (codes "r")
      (append_entry codec (entry_of 1 queued) [])
      (append_log (entry_of 1 queued) [])
append_entry-Refines_example =
    append_entry-Refines codec codec-CodecLaws (entry_of 1 queued) [] [] (refl, tt) queued_valid

appended :
    (append codec (entry_of 1 queued) fresh).0
    ≡ ok (record (run_in queued) { checkpoint = codes "step"; updated_at = 11 })
unfolding append text_beq state_beq validate_journal_entry trim_space valid_state can_transition
    merge_snapshot validate_snapshot append_entry newest
appended = refl

list_journal-append_example :
    (log : List JournalEntry) × (list_journal codec
        (codes "r")
        (append codec (entry_of 1 queued) fresh).1
      ≡ ok log)
    × (get_elem? log (1 - 1) ≡ some (entry_of 1 queued))
list_journal-append_example =
    list_journal-append codec codec-CodecLaws (entry_of 1 queued) fresh fresh-IsSound appended

-- The tables after the first entry
abbrev stored_one : RunTables
stored_one = record {
  runs = record (run_in queued) { checkpoint = codes "step"; updated_at = 11 } ∷ [];
  journal = to_row codec (entry_of 1 queued) ∷ [];
}

committed_one :
    save_checkpoint_tx codec (as_update (entry_of 1 queued)) (entry_of 1 queued) fresh
    ≡ ok (record (run_in queued) { checkpoint = codes "step"; updated_at = 11 }, stored_one)
unfolding save_checkpoint_tx text_beq state_beq validate_journal_entry trim_space valid_state
    can_transition merge_snapshot validate_snapshot append_entry newest
committed_one = refl

-- The entry 1 is sent again when the run has moved on to the entry 2.
save_checkpoint-again_example :
    (now : OperationRun) × (read_run
        (codes "r")
        (serve_runs codec (entry (entry_of 2 acquiring_lock) ∷ []) stored_one).runs
      ≡ some now)
    × (save_checkpoint codec
          (as_update (entry_of 1 queued))
          (entry_of 1 queued)
          (serve_runs codec (entry (entry_of 2 acquiring_lock) ∷ []) stored_one)
        ≡ (ok now, serve_runs codec (entry (entry_of 2 acquiring_lock) ∷ []) stored_one))
save_checkpoint-again_example =
    save_checkpoint-again codec codec-CodecLaws (as_update (entry_of 1 queued)) (entry_of 1 queued)
      fresh stored_one (record (run_in queued) { checkpoint = codes "step"; updated_at = 11 })
      (entry (entry_of 2 acquiring_lock) ∷ []) committed_one

serve_runs-AllLater_example :
    AllLater fresh
      (serve_runs codec (entry (entry_of 1 queued) ∷ entry (entry_of 1 acquiring_lock) ∷ []) fresh)
serve_runs-AllLater_example =
    serve_runs-AllLater codec (entry (entry_of 1 queued) ∷ entry (entry_of 1 acquiring_lock) ∷ [])
      fresh

load_runtime_snapshot-IsSound_example :
    load_runtime_snapshot codec (codes "r") 5 fresh (record { leases = []; reservations = [] })
    ≡ ok (runtime_snapshot (run_in awaiting_confirmation) (none, pos 1) none 5)
unfolding text_beq valid_state fresh-IsSound execution_state_requires_journal
load_runtime_snapshot-IsSound_example =
    load_runtime_snapshot-IsSound codec codec-CodecLaws (codes "r") 5 fresh
      (record { leases = []; reservations = [] }) (run_in awaiting_confirmation) fresh-IsSound refl
      refl (omega arith)
