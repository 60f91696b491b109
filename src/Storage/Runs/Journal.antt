-- ===== src/Storage/Runs/Journal.antt =====
-- The journal of app/internal/storage/sqlite/operation_checkpoint.go and operation_journal.go: its
-- rows, an appended entry, and the list of a run. The encodings that a row is written with are a
-- parameter, with the laws of `encoding/json` and of the `time` package that the store relies on.
use setpoint_ci_mirror.Base.{
  ℕ, ◌≡◌, Bool, ◌&&◌, ◌||◌, Option, none, some, List, [], ◌∷◌, ◌++◌, Result, ok, err, ◌>>=◌, ◌>>◌,
  require, eqb, ltb, ◌+◌, if◌then◌else◌, ◌==◌, find, keep,
}
use setpoint_ci_mirror.Base.Deep.{list_eq}
use setpoint_ci_mirror.Base.Text.{Text, text_eq}
use setpoint_ci_mirror.Operation.State.{state_eq, can_transition}
use setpoint_ci_mirror.Operation.Definition.{EvidenceRef}
use setpoint_ci_mirror.Operation.Equal.{evidence_ref_eq}
use setpoint_ci_mirror.Operation.Journal.{JournalEntry, JournalError, validate_journal_entry}
use setpoint_ci_mirror.OperationRun.{OperationRun}
use setpoint_ci_mirror.Storage.Runs.Tables.{
  JournalRow, RunTables, RunError, not_found, bad_entry, bad_time, bad_evidence, different_facts,
  must_start, must_advance, journal_state, read_run,
}

-- `formatTime`, `parseTime`, `json.Marshal` and `json.Unmarshal`
pub record Codec : Type 0 where
  pub format_time : ℕ → Text
  pub parse_time : Text → Option ℕ
  pub marshal : List EvidenceRef → Text
  pub unmarshal : Text → Option (List EvidenceRef)

-- What was written is read back.
pub record CodecLaws (codec : Codec) : Type 0 where
  pub time_read : (at : ℕ) → codec.parse_time (codec.format_time at) ≡ some at
  pub evidence_read : (e : List EvidenceRef) → codec.unmarshal (codec.marshal e) ≡ some e

abbrev pub or_error : {A : Type 0} → RunError → Option A → Result RunError A
or_error e none = err e
or_error e (some a) = ok a

abbrev pub to_row : Codec → JournalEntry → JournalRow
to_row codec entry = record {
  run_id = entry.run_id;
  sequence = entry.sequence;
  state = entry.state;
  checkpoint = entry.checkpoint;
  message = entry.message;
  at = codec.format_time entry.at;
  evidence = codec.marshal entry.evidence;
}

abbrev pub from_row : Codec → JournalRow → Result RunError JournalEntry
from_row codec row = do
  at ← or_error bad_time (codec.parse_time row.at)
  evidence ← or_error bad_evidence (codec.unmarshal row.evidence)
  ok (record {
    run_id = row.run_id;
    sequence = row.sequence;
    state = row.state;
    checkpoint = row.checkpoint;
    message = row.message;
    at = at;
    evidence = evidence;
  })

-- `… FROM operation_journal WHERE run_id = ?`
abbrev pub rows_of : Text → List JournalRow → List JournalRow
rows_of run_id rows = keep (λ (r : JournalRow). r.run_id == run_id) rows

abbrev pub decoded : Codec → Option JournalRow → Result RunError (Option JournalEntry)
decoded codec none = ok none
decoded codec (some row) = from_row codec row >>= λ entry. ok (some entry)

-- `readOperationJournalEntry`
abbrev pub read_entry : Codec → Text → ℕ → List JournalRow → Result RunError (Option JournalEntry)
read_entry codec run_id sequence rows =
    decoded codec (find (λ (r : JournalRow). eqb r.sequence sequence) (rows_of run_id rows))

-- `sameOperationJournalEntry`
abbrev pub same_entry : JournalEntry → JournalEntry → Bool
same_entry left right =
    left.run_id == right.run_id
    && eqb left.sequence right.sequence
    && left.state == right.state
    && left.checkpoint == right.checkpoint
    && left.message == right.message
    && eqb left.at right.at
    && (list_eq evidence_ref_eq).beq left.evidence right.evidence

abbrev pub later_row : JournalRow → Option JournalRow → Option JournalRow
later_row r none = some r
later_row r (some s) = if ltb r.sequence s.sequence then some s else some r

-- `… ORDER BY sequence DESC LIMIT 1`
unfoldable pub newest : List JournalRow → Option JournalRow
newest [] = none
newest (r ∷ rs) = later_row r (newest rs)

-- The largest `int64`: one more than it is a negative number, which no valid entry has.
abbrev pub max_sequence : ℕ
max_sequence = 9223372036854775807

-- What an entry must be after the tail of its journal.
abbrev pub follows : Option JournalRow → JournalEntry → Result RunError Unit
follows none entry = require (eqb entry.sequence 1) (must_start entry.sequence)
follows (some tail) entry = do
  require (ltb tail.sequence max_sequence && eqb entry.sequence (tail.sequence + 1))
      (must_advance tail.sequence entry.sequence)
  require (entry.state == tail.state || can_transition tail.state entry.state)
      (journal_state tail.state entry.state)

abbrev pub append_found :
    Codec → JournalEntry → List JournalRow → Option JournalEntry → Result RunError (List JournalRow)
append_found codec entry rows (some existing) =
    if same_entry existing entry then ok rows else err (different_facts entry.sequence)
append_found codec entry rows none =
    follows (newest (rows_of entry.run_id rows)) entry >> ok (rows ++ (to_row codec entry ∷ []))

-- `appendOperationJournalEntryTx`
unfoldable pub append_entry :
    Codec → JournalEntry → List JournalRow → Result RunError (List JournalRow)
append_entry codec entry rows =
    read_entry codec entry.run_id entry.sequence rows >>= append_found codec entry rows

-- `ORDER BY sequence ASC`
unfoldable pub insert_row : JournalRow → List JournalRow → List JournalRow
insert_row r [] = r ∷ []
insert_row r (s ∷ ss) =
    let rest = insert_row r ss in if ltb s.sequence r.sequence then s ∷ rest else r ∷ s ∷ ss

unfoldable pub sort_rows : List JournalRow → List JournalRow
unfolding insert_row
sort_rows [] = []
sort_rows (r ∷ rs) = insert_row r (sort_rows rs)

abbrev pub lift_entry : Result JournalError Unit → Result RunError Unit
lift_entry (ok u) = ok tt
lift_entry (err e) = err (bad_entry e)

-- `ValidateJournalEntry`, its error passed on
abbrev pub checked : JournalEntry → Result RunError Unit
checked entry = lift_entry (validate_journal_entry entry)

-- The loop over the rows of `List`
unfoldable pub read_rows : Codec → List JournalRow → Result RunError (List JournalEntry)
read_rows codec [] = ok []
read_rows codec (r ∷ rs) = do
  entry ← from_row codec r
  checked entry
  entries ← read_rows codec rs
  ok (entry ∷ entries)

abbrev pub list_rows :
    Codec → List JournalRow → Option OperationRun → Result RunError (List JournalEntry)
list_rows codec rows none = err not_found
list_rows codec rows (some run) = read_rows codec (sort_rows rows)

-- `List`
unfoldable pub list_journal : Codec → Text → RunTables → Result RunError (List JournalEntry)
list_journal codec run_id t = list_rows codec (rows_of run_id t.journal) (read_run run_id t.runs)
