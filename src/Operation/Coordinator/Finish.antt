-- ===== src/Operation/Coordinator/Finish.antt =====
-- app/internal/operation/lifecycle.go: how an execution ends early. Each function ends with the
-- branches that follow the answer of the service it called, as a function of that answer.
use setpoint_ci_mirror.Base.{
  Bool, true, not, ◌&&◌, Option, none, some, Result, ok, err, if◌then◌else◌,
}
use setpoint_ci_mirror.Base.Text.{Text, codes}
use setpoint_ci_mirror.Operation.State.{
  State, blocked, interrupted, canceled_before_apply, rolling_back, rolled_back, rollback_failed,
  can_transition,
}
use setpoint_ci_mirror.Operation.Definition.{Verification}
use setpoint_ci_mirror.Operation.Coordinator.{
  Cause, joined, wrapped, join, is_canceled, literal, background, Cursor, World, Services,
  PreparedRun, LifecycleResult, Outcome, finished, note, moved, is_none, did_pass, advance,
  release_lease, rolled, rollback_checked, restore_checked, plugin_rollback_not_passed,
  restored_not_passed,
}

module _ {E : Type 0} (s : Services E) where
  -- The end of a function that journals a last state: the new state, or the old one and both errors.
  abbrev pub closed :
      LifecycleResult → Cursor → Cause → Result Cause Cursor × World E → Outcome × World E
  closed r c cause (ok c', w) = (finished r c'.state (some cause), w)
  closed r c cause (err e, w) = (finished r c.state (some (joined cause e)), w)

  -- `if CanTransition(state, target) { advance(…) }` and the return
  abbrev pub close :
      LifecycleResult → Cursor → Text → State → Text → Text → Cause → World E → Outcome × World E
  close r c run_id target message checkpoint cause w =
      let last = closed r c cause (advance s background c run_id target message checkpoint w) in
      if can_transition c.state target then last else (finished r c.state (some cause), w)

  -- `blockBeforeApply`
  unfoldable pub block_before_apply :
      Cursor → Text → LifecycleResult → Cause → World E → Outcome × World E
  block_before_apply c run_id r cause w =
      close r c run_id blocked (literal (codes "operation blocked before apply"))
        (literal (codes "blocked_before_apply")) cause w

  -- `finishPrewriteWithLease` after the release; `stopped` is its `interrupted`.
  unfoldable pub finish_prewrite_released :
      Cursor → Text → LifecycleResult → Cause → Bool → World E → Outcome × World E
  finish_prewrite_released c run_id r cause stopped w =
      if not stopped && is_canceled cause
      then close r c run_id canceled_before_apply
          (literal (codes "operation canceled before apply"))
          (literal (codes "canceled_before_apply")) cause w
      else if stopped
      then close r c run_id interrupted (literal (codes "operation interrupted before apply"))
          (literal (codes "interrupted_before_apply")) cause w
      else block_before_apply c run_id r cause w

  abbrev pub after_release :
      Cursor → Text → LifecycleResult → Cause → Bool → Option Cause × World E → Outcome × World E
  after_release c run_id r cause stopped (none, w) =
      finish_prewrite_released c run_id r cause stopped w
  after_release c run_id r cause stopped (some e, w) =
      finish_prewrite_released c run_id r (joined cause e) true w

  -- `finishPrewriteWithLease`
  unfoldable pub finish_prewrite :
      Cursor → Text → LifecycleResult → Cause → Bool → World E → Outcome × World E
  finish_prewrite c run_id r cause stopped w =
      after_release c run_id r cause stopped (release_lease s w)

  abbrev interrupt_released :
      Cursor → Text → LifecycleResult → Cause → Option Cause × World E → Outcome × World E
  interrupt_released c run_id r cause (failure, w) =
      close r c run_id interrupted
        (literal
          (codes "lock ownership became uncertain after write started; automated writes stopped"))
        (literal (codes "lock_lost_after_write")) (join cause failure) w

  -- `interruptAfterWrite`
  unfoldable pub interrupt_after_write :
      Cursor → Text → LifecycleResult → Cause → World E → Outcome × World E
  interrupt_after_write c run_id r cause w = interrupt_released c run_id r cause (release_lease s w)

  abbrev rollback_failed_released :
      Cursor → Text → LifecycleResult → Cause → Option Cause × World E → Outcome × World E
  rollback_failed_released c run_id r cause (failure, w) =
      close r c run_id rollback_failed (literal (codes "automatic rollback could not be verified"))
        (literal (codes "rollback_failed")) (join cause failure) w

  -- `rollbackFailed`
  unfoldable pub fail_rollback :
      Cursor → Text → LifecycleResult → Cause → World E → Outcome × World E
  fail_rollback c run_id r cause w = rollback_failed_released c run_id r cause (release_lease s w)

  -- The last entry of `rollback`.
  abbrev pub after_rolled_back :
      Cursor → LifecycleResult → Cause → Result Cause Cursor × World E → Outcome × World E
  after_rolled_back c r cause (ok c', w) = (finished r c'.state (some cause), w)
  after_rolled_back c r cause (err e, w) = (finished r c.state (some (joined cause e)), w)

  -- `rollback` where the lock was not released: `err = errors.Join(err, journalErr)`.
  abbrev pub after_release_failed :
      Cursor → LifecycleResult → Cause → Cause → Result Cause Cursor × World E → Outcome × World E
  after_release_failed c r cause e (ok c', w) = (finished r c'.state (some (joined cause e)), w)
  after_release_failed c r cause e (err f, w) =
      (finished r c.state (some (joined cause (joined e f))), w)

  unfoldable pub rollback_released :
      Cursor → Text → LifecycleResult → Cause → Option Cause × World E → Outcome × World E
  rollback_released c run_id r cause (none, w) = after_rolled_back c r cause (
      advance s background c run_id rolled_back
        (literal (codes "automatic rollback completed and verified"))
        (literal (codes "rollback_verified")) w)
  rollback_released c run_id r cause (some e, w) = after_release_failed c r cause e (
      advance s background c run_id interrupted
        (literal (codes "rollback verified but lock release failed"))
        (literal (codes "rollback_release_failed")) w)

  -- The check of `restore.VerifyRestored`.
  unfoldable pub restored_verified :
      Cursor
      → Text
      → LifecycleResult
      → Cause
      → Result Cause Verification
      → World E
      → Outcome × World E
  restored_verified c run_id r cause (err e) w = fail_rollback c run_id r (joined cause e) w
  restored_verified c run_id r cause (ok v) w =
      if not v.passed
      then fail_rollback c run_id r (joined cause restored_not_passed) w
      else rollback_released c run_id r cause (release_lease s w)

  unfoldable pub verify_restored :
      Cursor → Text → LifecycleResult → Cause → World E → Outcome × World E
  verify_restored c run_id r cause w =
      let (v, e) = s.verify_restored r.restore_point r.rollback w.env in
      restored_verified c run_id r cause v (note (restore_checked (did_pass v)) e w)

  -- The check of `VerifyRollback`.
  unfoldable pub plugin_verified :
      Cursor
      → Text
      → LifecycleResult
      → Cause
      → Verification
      → Option Cause
      → World E
      → Outcome × World E
  plugin_verified c run_id r cause v (some e) w = fail_rollback c run_id r (joined cause e) w
  plugin_verified c run_id r cause v none w =
      if not v.passed
      then fail_rollback c run_id r (joined cause plugin_rollback_not_passed) w
      else verify_restored c run_id r cause w

  unfoldable pub verify_rollback :
      Cursor → PreparedRun → LifecycleResult → Cause → World E → Outcome × World E
  verify_rollback c p r cause w =
      let (v, failure, e) = s.verify_rollback p.runtime p.plan r.rollback r.restore_point w.env in
      plugin_verified c p.run_id (record r { rollback_verification = v }) cause v failure
        (note (rollback_checked (is_none failure && v.passed)) e w)

  abbrev pub rolled_data :
      Cursor → PreparedRun → LifecycleResult → Cause → Option Cause → World E → Outcome × World E
  rolled_data c p r cause none w = verify_rollback c p r cause w
  rolled_data c p r cause (some e) w =
      fail_rollback c p.run_id r (joined cause (wrapped (literal (codes "rollback failed")) e)) w

  unfoldable pub call_rollback :
      Cursor → PreparedRun → LifecycleResult → Cause → World E → Outcome × World E
  call_rollback c p r cause w =
      let (data', failure, e) = s.rollback p.runtime p.plan r.apply r.restore_point w.env in
      rolled_data c p (record r { rollback = data' }) cause failure
        (note (rolled (is_none failure)) e w)

  -- `rollback` after the entry `rolling_back`. Where that entry fails the method returns at once.
  abbrev pub after_rolling_back :
      Cursor
      → PreparedRun
      → LifecycleResult
      → Cause
      → Result Cause Cursor × World E
      → Outcome × World E
  after_rolling_back c p r cause (ok c', w) = call_rollback c' p r cause w
  after_rolling_back c p r cause (err e, w) = (finished r c.state (some (joined cause e)), w)

  unfoldable pub session_lost :
      Cursor → PreparedRun → LifecycleResult → Cause → Option Cause → World E → Outcome × World E
  session_lost c p r cause (some e) w =
      interrupt_after_write c p.run_id r
        (joined cause (wrapped (literal (codes "rollback blocked because lock renewal failed")) e))
        w
  session_lost c p r cause none w = after_rolling_back c p r cause (
      advance s background c p.run_id rolling_back (literal (codes "automatic rollback started"))
        (literal (codes "rollback")) w)

  -- `rollback`
  unfoldable pub roll_back :
      Cursor → PreparedRun → LifecycleResult → Cause → World E → Outcome × World E
  roll_back c p r cause w =
      let (lost, e) = s.session_error w.env in session_lost c p r cause lost (moved e w)
