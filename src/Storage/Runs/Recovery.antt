-- ===== src/Storage/Runs/Recovery.antt =====
-- app/internal/storage/sqlite/operation_runtime_recovery.go: what the server rebuilds from the tables
-- after a restart.
use setpoint_ci_mirror.Base.{
  ℕ, ◌≡◌, refl, ap, ◌∙◌, Bool, true, false, not, ◌||◌, ◌&&◌, Option, none, some, List, [], ◌∷◌,
  Result, ok, err, ◌>>=◌, ◌>>◌, require, ltb, ◌==◌, if◌then◌else◌, length, arith, ◌+◌, ◌<◌,
  is_empty,
}
use setpoint_ci_mirror.Base.Int.{ℤ, pos, negsuc}
use setpoint_ci_mirror.Base.Text.{Text, text_eq, text_beq_iff}
use setpoint_ci_mirror.Operation.State.{
  State, state_eq, state_beq_iff, valid_state, queued, acquiring_lock, creating_restore_point,
  running, verifying, succeeded, failed, rolling_back, rolled_back, rollback_failed, interrupted,
}
use setpoint_ci_mirror.Operation.Journal.{JournalEntry}
use setpoint_ci_mirror.Operation.Lock.{LockLease, validate_lease}
use setpoint_ci_mirror.OperationRun.{OperationRun}
use setpoint_ci_mirror.Storage.Locks.{LockTables, read_lease_by_owner}
use setpoint_ci_mirror.Storage.Runs.Tables.{
  RunTables, RunError, get_operation_run, read_run, found_run,
}
use setpoint_ci_mirror.Storage.Runs.Journal.{Codec, CodecLaws, list_journal, max_sequence}
use setpoint_ci_mirror.Storage.Runs.Log.{IsLog, last_from, last_from-sequence}
use setpoint_ci_mirror.Storage.Runs.Append.{list_journal-log}
use setpoint_ci_mirror.Storage.Runs.Invariant.{Level, IsSound}

pub record OperationRuntimeSnapshot : Type 0 where
  pub run : OperationRun
  pub journal_tail : Option JournalEntry
  pub next_journal_sequence : ℤ
  pub lease : Option LockLease
  pub lease_active : Bool
  pub write_blocked_until_reconcile : Bool

pub data RecoveryError : Type 0 where
  store_error : RunError → RecoveryError
  persisted_state_invalid diverges no_durable_journal : RecoveryError

-- `executionStateRequiresJournal`
unfoldable pub execution_state_requires_journal : State → Bool
execution_state_requires_journal queued = true
execution_state_requires_journal acquiring_lock = true
execution_state_requires_journal creating_restore_point = true
execution_state_requires_journal running = true
execution_state_requires_journal verifying = true
execution_state_requires_journal succeeded = true
execution_state_requires_journal failed = true
execution_state_requires_journal rolling_back = true
execution_state_requires_journal rolled_back = true
execution_state_requires_journal rollback_failed = true
execution_state_requires_journal interrupted = true
execution_state_requires_journal _ = false

-- `operationStateRequiresReconcile`
unfoldable pub operation_state_requires_reconcile : State → Bool
operation_state_requires_reconcile creating_restore_point = true
operation_state_requires_reconcile running = true
operation_state_requires_reconcile verifying = true
operation_state_requires_reconcile failed = true
operation_state_requires_reconcile rolling_back = true
operation_state_requires_reconcile interrupted = true
operation_state_requires_reconcile _ = false

abbrev pub from_store : {A : Type 0} → Result RunError A → Result RecoveryError A
from_store (ok a) = ok a
from_store (err e) = err (store_error e)

-- `tail.Sequence + 1` on `int64`, which wraps to the smallest number
abbrev pub next_number : ℕ → ℤ
next_number n = if ltb n max_sequence then pos (n + 1) else negsuc max_sequence

-- The tail of the journal and the number of the next entry
abbrev pub tail_checked :
    OperationRun → List JournalEntry → Result RecoveryError (Option JournalEntry × ℤ)
tail_checked run [] =
    if execution_state_requires_journal run.state then err no_durable_journal else ok (none, pos 1)
tail_checked run (e ∷ es) =
    let tail = last_from e es in
    if not (tail.state == run.state) || not (tail.checkpoint == run.checkpoint)
    then err diverges
    else ok (some tail, next_number tail.sequence)

abbrev pub is_active_lease : Option LockLease → ℕ → Bool
is_active_lease none now = false
is_active_lease (some lease) now = elim (validate_lease lease now) [ ok _ ↦ true | err _ ↦ false ]

abbrev pub runtime_snapshot :
    OperationRun → Option JournalEntry × ℤ → Option LockLease → ℕ → OperationRuntimeSnapshot
runtime_snapshot run tail lease now = record {
  run = run;
  journal_tail = tail.0;
  next_journal_sequence = tail.1;
  lease = lease;
  lease_active = is_active_lease lease now;
  write_blocked_until_reconcile = operation_state_requires_reconcile run.state;
}

-- `LoadOperationRuntimeSnapshot`
unfoldable pub load_runtime_snapshot :
    Codec → Text → ℕ → RunTables → LockTables → Result RecoveryError OperationRuntimeSnapshot
load_runtime_snapshot codec id now t locks = do
  run ← from_store (get_operation_run id t)
  require (valid_state run.state) persisted_state_invalid
  journal ← from_store (list_journal codec id t)
  tail ← tail_checked run journal
  ok (runtime_snapshot run tail (read_lease_by_owner id locks) now)

abbrev pub last_entry : List JournalEntry → Option JournalEntry
last_entry [] = none
last_entry (e ∷ es) = some (last_from e es)

-- A tail that is level with its run is accepted, and the number after it is that of the next entry.
tail_level :
    (id : Text) (run : OperationRun) (log : List JournalEntry)
    → IsLog id 0 none log
    → Level log run
    → length log < max_sequence
    → tail_checked run log ≡ (
        if is_empty log && execution_state_requires_journal run.state
        then err no_durable_journal
        else ok (last_entry log, pos (length log + 1)))
tail_level id run [] logged level bound = refl
tail_level id run (e ∷ es) logged level bound =
    let number : (last_from e es).sequence ≡ length (e ∷ es) =
      omega (arith, last_from-sequence id 0 none e es logged) in
    let s = (state_beq_iff (last_from e es).state run.state).1 level.0 in
    let c = (text_beq_iff (last_from e es).checkpoint run.checkpoint).1 level.1 in
    let below : ltb (length (e ∷ es)) max_sequence ≡ true = ground arith in
    ap
      (λ b.
        if not b || not ((last_from e es).checkpoint == run.checkpoint)
        then err diverges
        else ok (some (last_from e es), next_number (last_from e es).sequence))
      s
    ∙ ap
        (λ b.
          if not b
          then err diverges
          else ok (some (last_from e es), next_number (last_from e es).sequence))
        c
    ∙ ap (λ n. ok (some (last_from e es), next_number n)) number
    ∙ ap
        (λ b.
          ok (some (last_from e es), if b then pos (length (e ∷ es) + 1) else negsuc max_sequence))
        below

settle :
    {A B : Type 0} (b : Bool) (a : A) (next : A → Result RecoveryError B) (e : RecoveryError)
    → ((if b then err e else ok a) >>= next) ≡ (if b then err e else next a)
settle true a next e = refl
settle false a next e = refl

pub load_runtime_snapshot-IsSound :
    (codec : Codec) (laws : CodecLaws codec) (id : Text) (now : ℕ) (t : RunTables)
    (locks : LockTables) (run : OperationRun) (sound : IsSound codec t)
    → read_run id t.runs ≡ some run
    → valid_state run.state ≡ true
    → length (sound id).log < max_sequence
    → load_runtime_snapshot codec id now t locks ≡ (
        if is_empty (sound id).log && execution_state_requires_journal run.state
        then err no_durable_journal
        else ok (
            runtime_snapshot run
              (last_entry (sound id).log, pos (length (sound id).log + 1))
              (read_lease_by_owner id locks)
              now))
unfolding load_runtime_snapshot
load_runtime_snapshot-IsSound codec laws id now t locks run sound known valid bound =
    let s = sound id in
    let rest : OperationRun
        → Option JournalEntry × ℤ
        → Result RecoveryError OperationRuntimeSnapshot =
      λ r tail. ok (runtime_snapshot r tail (read_lease_by_owner id locks) now) in
    ap
      (λ o. from_store (found_run o) >>= λ r.
        require (valid_state r.state) persisted_state_invalid >>= λ _.
        from_store (list_journal codec id t) >>= λ journal. tail_checked r journal >>= rest r)
      known
    ∙ ap
        (λ b. require b persisted_state_invalid >>= λ _.
          from_store (list_journal codec id t) >>= λ journal. tail_checked run journal >>= rest run)
        valid
    ∙ ap (λ l. from_store l >>= λ journal. tail_checked run journal >>= rest run)
        (list_journal-log codec laws id t s.log s.rows known)
    ∙ ap (λ r. r >>= rest run) (tail_level id run s.log s.rows.1 (s.level run known) bound)
    ∙ settle (is_empty s.log && execution_state_requires_journal run.state)
        (last_entry s.log, pos (length s.log + 1)) (rest run) no_durable_journal
