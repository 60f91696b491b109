-- ===== src/Operation/Journal.antt =====
-- app/internal/operation/journal.go
use setpoint_ci_mirror.Base.{ℕ, List, not, Result, ◌>>◌, require, eqb, ltb}
use setpoint_ci_mirror.Base.Text.{Text, is_blank}
use setpoint_ci_mirror.Operation.State.{State, valid_state}
use setpoint_ci_mirror.Operation.Definition.{EvidenceRef}

pub record JournalEntry : Type 0 where
  pub run_id : Text
  pub sequence : ℕ
  pub state : State
  pub checkpoint : Text
  pub message : Text
  pub at : ℕ
  pub evidence : List EvidenceRef

pub data JournalError : Type 0 where
  run_id_required sequence_not_positive state_invalid message_required timestamp_required :
      JournalError

-- `ValidateJournalEntry`. A sequence number is counted up from 0 and never negative.
unfoldable pub validate_journal_entry : JournalEntry → Result JournalError Unit
validate_journal_entry entry = do
  require (not (is_blank entry.run_id)) run_id_required
  require (not (ltb entry.sequence 1)) sequence_not_positive
  require (valid_state entry.state) state_invalid
  require (not (is_blank entry.message)) message_required
  require (not (eqb entry.at 0)) timestamp_required
