-- ===== src/Operation/Coordinator.antt =====
-- app/internal/operation/lifecycle.go: the coordinator of one operation run. The lock manager, the
-- journal, the restore point provider, the operation definition, the clock, the caller's context and
-- the lease session with its renewal goroutine are the fields of `Services`, over a state `E` of the
-- outside world, which every use of them may change. `World` adds the record of what the coordinator
-- asked for, which the proofs speak of.
pub mod Finish
pub mod Execute
pub mod Prepare
pub mod Trace
mod Advance
mod Ending
mod Restored
mod Rollback
mod Written
mod Prewrite
pub mod Safety
pub mod Protocol
use setpoint_ci_mirror.Base.{
  ℕ, ◌+◌, Bool, true, false, not, ◌||◌, Option, none, some, List, [], ◌∷◌, Result, ok, err, ◌>>=◌,
  ◌>>◌, require, is_empty, if◌then◌else◌,
}
use setpoint_ci_mirror.Base.Int.{ℤ, pos}
use setpoint_ci_mirror.Base.Text.{Text, codes}
use setpoint_ci_mirror.Operation.State.{State, TransitionError, transition}
use setpoint_ci_mirror.Operation.Target.{Target}
use setpoint_ci_mirror.Operation.Lock.{
  LockResource, LockRequest, LockLease, LockError, second, resource_lock_key,
  normalize_lock_request,
}
use setpoint_ci_mirror.Operation.Definition.{
  RuntimeInput, Discovery, Precheck, Plan, Impact, ApplyResult, Verification, RollbackResult,
}
use setpoint_ci_mirror.Operation.Metadata.{Metadata, MetadataError}
use setpoint_ci_mirror.Operation.Journal.{JournalEntry}
use setpoint_ci_mirror.Operation.RestorePoint.{RestorePoint, RestorePointError}

-- A Go error: `wrapped` is `fmt.Errorf` with `%w`, `joined` is `errors.Join`.
pub data Cause : Type 0 where
  canceled deadline_exceeded : Cause
  external : Text → Cause
  run_id_required not_awaiting_confirmation wrong_definition : Cause
  no_targets no_execution_artifact : Cause
  point_not_verified verification_not_passed plugin_rollback_not_passed restored_not_passed : Cause
  bad_metadata : MetadataError → Cause
  bad_transition : TransitionError → Cause
  bad_lock : LockError → Cause
  bad_point : RestorePointError → Cause
  wrapped : Text → Cause → Cause
  joined : Cause → Cause → Cause

-- `errors.Is(cause, context.Canceled)`
unfoldable pub is_canceled : Cause → Bool
is_canceled canceled = true
is_canceled (wrapped t c) = is_canceled c
is_canceled (joined c d) = let left = is_canceled c in let right = is_canceled d in left || right
is_canceled _ = false

-- `errors.Join(cause, err)` for an `err` that may be nil.
abbrev pub join : Cause → Option Cause → Cause
join cause none = cause
join cause (some e) = joined cause e

-- A text of the source, kept shut.
unfoldable pub literal : Text → Text
literal t = t

-- The caller's context, or `context.Background()`.
pub data Context : Type 0 where
  caller background : Context

-- The local variables `state` and `sequence`.
pub record Cursor : Type 0 where
  pub state : State
  pub sequence : ℕ

-- What the coordinator asked of the services, with what it learned from the answer.
pub data Call : Type 0 where
  appended : JournalEntry → Call
  append_failed : JournalEntry → Call
  lock_granted lock_refused : Call
  -- `Release` was called, and did or did not fail.
  released : Bool → Call
  -- `restore.Create` was called, and did or did not return a restore point.
  point_created : Bool → Call
  -- `restore.Verify` was called, and did or did not report a pass.
  point_verified : Bool → Call
  -- `Apply` was called, and did or did not return without an error.
  applied : Bool → Call
  -- `Verify` was called, and did or did not report a pass.
  result_verified : Bool → Call
  rolled : Bool → Call
  rollback_checked : Bool → Call
  restore_checked : Bool → Call
  -- A read-only step of the preparation.
  inspected : Call

pub record World (E : Type 0) : Type 0 where
  pub env : E
  pub calls : List Call

pub record Services (E : Type 0) : Type 0 where
  pub now : E → ℕ × E
  -- `ctx.Err()`
  pub context_error : E → Option Cause × E
  pub append : Context → JournalEntry → E → Option Cause × E
  pub acquire : LockRequest → E → Result Cause LockLease × E
  pub release : LockLease → E → Option Cause × E
  -- `newLeaseSession` with `start`, and `session.stop`
  pub start_session : LockLease → E → E
  pub stop_session : E → E
  pub current_lease : E → LockLease × E
  pub session_error : E → Option Cause × E
  pub create_point : Plan → List Target → Text → E → Result Cause RestorePoint × E
  pub verify_point : RestorePoint → E → Result Cause Verification × E
  pub verify_restored : RestorePoint → RollbackResult → E → Result Cause Verification × E
  pub metadata : Metadata
  pub discover : RuntimeInput → E → Result Cause Discovery × E
  pub precheck : RuntimeInput → Discovery → E → Result Cause Precheck × E
  pub plan : RuntimeInput → Discovery → Precheck → E → Result Cause Plan × E
  pub impact : RuntimeInput → Plan → E → Result Cause Impact × E
  -- These return a result beside their error, and the result is kept.
  pub apply : RuntimeInput → Plan → Impact → RestorePoint → E → ApplyResult × Option Cause × E
  pub verify : RuntimeInput → Plan → ApplyResult → E → Verification × Option Cause × E
  pub rollback :
      RuntimeInput → Plan → ApplyResult → RestorePoint → E → RollbackResult × Option Cause × E
  pub verify_rollback :
      RuntimeInput → Plan → RollbackResult → RestorePoint → E → Verification × Option Cause × E

pub record PreparedRun : Type 0 where
  pub run_id : Text
  pub metadata : Metadata
  pub runtime : RuntimeInput
  pub discovery : Discovery
  pub precheck : Precheck
  pub plan : Plan
  pub impact : Impact
  pub state : State
  pub journal_sequence : ℕ

-- `LifecycleResult`; a field that was not set has its zero value.
pub record LifecycleResult : Type 0 where
  pub run_id : Text
  pub state : State
  pub restore_point : RestorePoint
  pub apply : ApplyResult
  pub verification : Verification
  pub rollback : RollbackResult
  pub rollback_verification : Verification

-- What a method returns: a result and an error that may be nil.
pub record Outcome : Type 0 where
  pub result : LifecycleResult
  pub error : Option Cause

abbrev pub is_none {ℓ} : {A : Type ℓ} → Option A → Bool
is_none none = true
is_none (some a) = false

abbrev pub wrap_option : Text → Option Cause → Option Cause
wrap_option t none = none
wrap_option t (some e) = some (wrapped t e)

-- Whether a verification came back and reports a pass.
abbrev pub did_pass : Result Cause Verification → Bool
did_pass (ok v) = v.passed
did_pass (err e) = false

abbrev pub finished : LifecycleResult → State → Option Cause → Outcome
finished r state e = record { result = record r { state = state }; error = e }

abbrev pub note : {E : Type 0} → Call → E → World E → World E
note c e w = record { env = e; calls = c ∷ w.calls }

abbrev pub moved : {E : Type 0} → E → World E → World E
moved e w = record w { env = e }

abbrev appended_or_failed : JournalEntry → Option Cause → Call
appended_or_failed entry none = appended entry
appended_or_failed entry (some e) = append_failed entry

abbrev next_cursor : Cursor → State → Option Cause → Result Cause Cursor
next_cursor c to none = ok (record { state = to; sequence = c.sequence + 1 })
next_cursor c to (some e) = err (wrapped (literal (codes "append operation journal")) e)

-- The loop of `lockResources`.
unfoldable pub lock_keys : List Target → Result LockError (List LockResource)
lock_keys [] = ok []
lock_keys (t ∷ ts) = do
  key ← resource_lock_key t
  rest ← lock_keys ts
  ok (record { key = key } ∷ rest)

abbrev pub as_cause : {A : Type 0} → Result LockError A → Result Cause A
as_cause (ok a) = ok a
as_cause (err e) = err (bad_lock e)

-- `lockResources`
unfoldable pub lock_resources : List Target → Result Cause (List LockResource)
lock_resources targets =
    if is_empty targets
    then err no_targets
    else as_cause (do
      keys ← lock_keys targets
      request ←
          normalize_lock_request
            (record { owner_id = literal (codes "validate"); resources = keys; ttl = second })
      ok request.resources)

module _ {E : Type 0} (s : Services E) where
  -- `advance` after the check of the transition.
  abbrev append_entry :
      Context → Cursor → Text → State → Text → Text → World E → Result Cause Cursor × World E
  append_entry ctx c run_id to message checkpoint w =
      let (at, e) = s.now w.env in
      let entry : JournalEntry = record {
        run_id = run_id;
        sequence = c.sequence + 1;
        state = to;
        checkpoint = checkpoint;
        message = message;
        at = at;
        evidence = [];
      } in
      let (failure, e') = s.append ctx entry e in
      (next_cursor c to failure, note (appended_or_failed entry failure) e' w)

  abbrev checked :
      Result TransitionError Unit
      → Result Cause Cursor × World E
      → World E
      → Result Cause Cursor × World E
  checked (ok u) next w = next
  checked (err e) next w = (err (bad_transition e), w)

  -- `advance`
  unfoldable pub advance :
      Context → Cursor → Text → State → Text → Text → World E → Result Cause Cursor × World E
  advance ctx c run_id to message checkpoint w =
      checked (transition c.state to) (append_entry ctx c run_id to message checkpoint w) w

  -- `releaseLease`
  unfoldable pub release_lease : World E → Option Cause × World E
  release_lease w =
      let (lease, e) = s.current_lease (s.stop_session w.env) in
      let (failure, e') = s.release lease e in
      (
        wrap_option (literal (codes "release operation lock")) failure,
        note (released (is_none failure)) e' w,
      )
