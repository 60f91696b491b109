-- ===== src/Operation/Coordinator/Execute.antt =====
-- app/internal/operation/lifecycle.go: `ExecuteConfirmed`. Each function makes one call and goes on
-- with a function of its answer, in the order of the source. The definition is a parameter, so that
-- the test for nil is left out.
use setpoint_ci_mirror.Base.{
  Bool, true, false, not, ◌&&◌, Option, none, some, List, Result, ok, err, if◌then◌else◌, ◌==◌,
}
use setpoint_ci_mirror.Base.Int.{ℤ, pos}
use setpoint_ci_mirror.Base.Text.{codes, text_eq}
use setpoint_ci_mirror.Operation.State.{
  awaiting_confirmation, queued, acquiring_lock, creating_restore_point, running, verifying,
  succeeded, interrupted, canceled_before_apply, state_eq,
}
use setpoint_ci_mirror.Operation.Lock.{LockResource, LockLease, LockError, validate_lease_coverage}
use setpoint_ci_mirror.Operation.Definition.{
  Verification, zero_apply, zero_verification, zero_rollback,
}
use setpoint_ci_mirror.Operation.RestorePoint.{
  RestorePoint, RestorePointError, verified, validate_restore_point, zero_restore_point,
}
use setpoint_ci_mirror.Operation.Coordinator.{
  Cause, joined, wrapped, join, literal, caller, background, Cursor, World, Services, PreparedRun,
  LifecycleResult, Outcome, finished, note, moved, is_none, did_pass, wrap_option, advance,
  release_lease, lock_resources, lock_granted, lock_refused, released, point_created,
  point_verified, applied, result_verified, bad_lock, bad_point, point_not_verified,
  verification_not_passed, not_awaiting_confirmation, wrong_definition,
}
use setpoint_ci_mirror.Operation.Coordinator.Finish.{
  block_before_apply, finish_prewrite, interrupt_after_write, roll_back,
}

-- `defaultOperationLockTTL`, ten minutes.
abbrev pub lock_ttl : ℤ
lock_ttl = pos 600000000000

abbrev pub is_ok {ℓ} : {A B : Type ℓ} → Result A B → Bool
is_ok (ok b) = true
is_ok (err a) = false

abbrev pub start_cursor : PreparedRun → Cursor
start_cursor p = record { state = p.state; sequence = p.journal_sequence }

abbrev pub fresh_result : PreparedRun → LifecycleResult
fresh_result p = record {
  run_id = p.run_id;
  state = p.state;
  restore_point = zero_restore_point;
  apply = zero_apply;
  verification = zero_verification;
  rollback = zero_rollback;
  rollback_verification = zero_verification;
}

module _ {E : Type 0} (s : Services E) where
  -- The last entry, `succeeded`, or `interrupted` where the lock was not released.
  abbrev pub after_succeeded :
      Cursor → LifecycleResult → Result Cause Cursor × World E → Outcome × World E
  after_succeeded c r (ok c', w) = (finished r c'.state none, w)
  after_succeeded c r (err e, w) = (finished r c.state (some e), w)

  abbrev pub after_not_released :
      Cursor → LifecycleResult → Cause → Result Cause Cursor × World E → Outcome × World E
  after_not_released c r e (ok c', w) = (finished r c'.state (some e), w)
  after_not_released c r e (err f, w) = (finished r c.state (some (joined e f)), w)

  abbrev pub complete_released :
      Cursor → PreparedRun → LifecycleResult → Option Cause × World E → Outcome × World E
  complete_released c p r (none, w) = after_succeeded c r (
      advance s background c p.run_id succeeded (literal (codes "operation completed and verified"))
        (literal (codes "complete")) w)
  complete_released c p r (some e, w) = after_not_released c r e (
      advance s background c p.run_id interrupted
        (literal (codes "verified apply completed but lock release failed"))
        (literal (codes "release_lock_failed")) w)

  unfoldable pub complete : Cursor → PreparedRun → LifecycleResult → World E → Outcome × World E
  complete c p r w = complete_released c p r (release_lease s w)

  -- After `Verify`: the lease, then the error, then the verdict.
  unfoldable pub verify_answered :
      Cursor
      → PreparedRun
      → LifecycleResult
      → Verification
      → Option Cause
      → Option Cause
      → World E
      → Outcome × World E
  verify_answered c p r v failure (some lost) w =
      interrupt_after_write s c p.run_id r
        (wrapped (literal (codes "operation lock renewal failed during verification")) lost) w
  verify_answered c p r v (some e) none w =
      roll_back s c p r (wrapped (literal (codes "verify failed")) e) w
  verify_answered c p r v none none w =
      if not v.passed then roll_back s c p r verification_not_passed w else complete c p r w

  unfoldable pub call_verify : Cursor → PreparedRun → LifecycleResult → World E → Outcome × World E
  call_verify c p r w =
      let (v, failure, e) = s.verify p.runtime p.plan r.apply w.env in
      let (lost, e') = s.session_error e in
      verify_answered c p (record r { verification = v }) v failure lost
        (note (result_verified (is_none failure && v.passed)) e' w)

  abbrev pub after_verifying :
      Cursor → PreparedRun → LifecycleResult → Result Cause Cursor × World E → Outcome × World E
  after_verifying c p r (ok c', w) = call_verify c' p r w
  after_verifying c p r (err e, w) = roll_back s c p r e w

  -- After `Apply`: the lease, then the error.
  unfoldable pub apply_answered :
      Cursor
      → PreparedRun
      → LifecycleResult
      → Option Cause
      → Option Cause
      → World E
      → Outcome × World E
  apply_answered c p r failure (some lost) w =
      interrupt_after_write s c p.run_id r
        (wrapped (literal (codes "operation lock renewal failed after apply started")) lost) w
  apply_answered c p r (some e) none w =
      roll_back s c p r (wrapped (literal (codes "apply failed")) e) w
  apply_answered c p r none none w = after_verifying c p r (
      advance s background c p.run_id verifying (literal (codes "verify applied state"))
        (literal (codes "verify")) w)

  unfoldable pub call_apply : Cursor → PreparedRun → LifecycleResult → World E → Outcome × World E
  call_apply c p r w =
      let (a, failure, e) = s.apply p.runtime p.plan p.impact r.restore_point w.env in
      let (lost, e') = s.session_error e in
      apply_answered c p (record r { apply = a }) failure lost
        (note (applied (is_none failure)) e' w)

  abbrev pub after_running :
      Cursor → PreparedRun → LifecycleResult → Result Cause Cursor × World E → Outcome × World E
  after_running c p r (ok c', w) = call_apply c' p r w
  after_running c p r (err e, w) = finish_prewrite s c p.run_id r e true w

  -- `ctx.Err()` before the first write.
  unfoldable pub start_apply :
      Cursor → PreparedRun → LifecycleResult → Option Cause → World E → Outcome × World E
  start_apply c p r (some e) w = finish_prewrite s c p.run_id r e false w
  start_apply c p r none w = after_running c p r (
      advance s caller c p.run_id running (literal (codes "staged apply started"))
        (literal (codes "apply")) w)

  -- `session.Err()` before the first write.
  unfoldable pub check_session :
      Cursor → PreparedRun → LifecycleResult → Option Cause → World E → Outcome × World E
  check_session c p r (some e) w =
      finish_prewrite s c p.run_id r
        (wrapped (literal (codes "operation lock renewal failed before apply")) e) true w
  check_session c p r none w =
      let (canceled', e) = s.context_error w.env in start_apply c p r canceled' (moved e w)

  abbrev pub point_checked :
      Cursor
      → PreparedRun
      → LifecycleResult
      → Result RestorePointError Unit
      → World E
      → Outcome × World E
  point_checked c p r (err e) w =
      finish_prewrite s c p.run_id r
        (wrapped (literal (codes "validate verified restore point")) (bad_point e)) false w
  point_checked c p r (ok u) w =
      let (lost, e) = s.session_error w.env in check_session c p r lost (moved e w)

  -- `restore.Verify` answered; a passed point is marked as verified and validated.
  unfoldable pub point_answered :
      Cursor
      → PreparedRun
      → LifecycleResult
      → Result Cause Verification
      → World E
      → Outcome × World E
  point_answered c p r (err e) w =
      finish_prewrite s c p.run_id r (wrapped (literal (codes "verify restore point")) e) false w
  point_answered c p r (ok v) w =
      let point = record r.restore_point { status = verified } in
      let (now, e) = s.now w.env in
      let next =
        point_checked c p (record r { restore_point = point }) (validate_restore_point point now)
          (moved e w) in
      if not v.passed then finish_prewrite s c p.run_id r point_not_verified false w else next

  -- `restore.Create` answered.
  unfoldable pub created :
      Cursor
      → PreparedRun
      → LifecycleResult
      → Result Cause RestorePoint
      → World E
      → Outcome × World E
  created c p r (err e) w =
      finish_prewrite s c p.run_id r (wrapped (literal (codes "create restore point")) e) false w
  created c p r (ok point) w =
      let (v, e) = s.verify_point point w.env in
      point_answered c p (record r { restore_point = point }) v
        (note (point_verified (did_pass v)) e w)

  abbrev pub after_creating :
      Cursor → PreparedRun → LifecycleResult → Result Cause Cursor × World E → Outcome × World E
  after_creating c p r (err e, w) = finish_prewrite s c p.run_id r e false w
  after_creating c p r (ok c', w) =
      let (point, e) = s.create_point p.plan p.discovery.targets p.run_id w.env in
      created c' p r point (note (point_created (is_ok point)) e w)

  -- With the lease: `newLeaseSession`, `session.start()` and the restore point.
  unfoldable pub with_lease :
      Cursor → PreparedRun → LifecycleResult → LockLease → World E → Outcome × World E
  with_lease c p r lease w = after_creating c p r (
      advance s caller c p.run_id creating_restore_point
        (literal (codes "create and verify restore point")) (literal (codes "restore_point"))
        (moved (s.start_session lease w.env) w))

  -- The lease does not cover what was asked for: it is given back, and no session was started.
  unfoldable pub give_back :
      Cursor → PreparedRun → LifecycleResult → LockError → LockLease → World E → Outcome × World E
  give_back c p r error lease w =
      let (failure, e) = s.release lease w.env in
      let cause = wrapped (literal (codes "validate acquired operation lock")) (bad_lock error) in
      block_before_apply s c p.run_id r
        (join cause (wrap_option (literal (codes "release invalid operation lock")) failure))
        (note (released (is_none failure)) e w)

  abbrev pub coverage_checked :
      Cursor
      → PreparedRun
      → LifecycleResult
      → LockLease
      → Result LockError Unit
      → World E
      → Outcome × World E
  coverage_checked c p r lease (err e) w = give_back c p r e lease w
  coverage_checked c p r lease (ok u) w = with_lease c p r lease w

  -- `locks.Acquire` answered.
  unfoldable pub acquired :
      Cursor
      → PreparedRun
      → LifecycleResult
      → List LockResource
      → Result Cause LockLease
      → E
      → World E
      → Outcome × World E
  acquired c p r resources (err e) env w =
      block_before_apply s c p.run_id r (wrapped (literal (codes "acquire operation lock")) e)
        (note lock_refused env w)
  acquired c p r resources (ok lease) env w =
      let (now, e) = s.now env in
      coverage_checked c p r lease (validate_lease_coverage lease p.run_id resources now)
        (note lock_granted e w)

  unfoldable pub with_resources :
      Cursor
      → PreparedRun
      → LifecycleResult
      → Result Cause (List LockResource)
      → World E
      → Outcome × World E
  with_resources c p r (err e) w = block_before_apply s c p.run_id r e w
  with_resources c p r (ok resources) w =
      let (lease, e) =
        s.acquire (record { owner_id = p.run_id; resources = resources; ttl = lock_ttl }) w.env in
      acquired c p r resources lease e w

  abbrev pub after_acquiring :
      Cursor → PreparedRun → LifecycleResult → Result Cause Cursor × World E → Outcome × World E
  after_acquiring c p r (err e, w) = (finished r c.state (some e), w)
  after_acquiring c p r (ok c', w) = with_resources c' p r (lock_resources p.discovery.targets) w

  abbrev pub after_canceled :
      Cursor → LifecycleResult → Cause → Result Cause Cursor × World E → Outcome × World E
  after_canceled c r cause (ok c', w) = (finished r c'.state (some cause), w)
  after_canceled c r cause (err e, w) = (finished r c.state (some (joined cause e)), w)

  -- `ctx.Err()` before the lock.
  unfoldable pub check_context :
      Cursor → PreparedRun → LifecycleResult → Option Cause → World E → Outcome × World E
  check_context c p r (some e) w = after_canceled c r e (
      advance s background c p.run_id canceled_before_apply
        (literal (codes "operation canceled before lock acquisition"))
        (literal (codes "canceled_before_apply")) w)
  check_context c p r none w = after_acquiring c p r (
      advance s caller c p.run_id acquiring_lock
        (literal (codes "acquire exclusive operation resources")) (literal (codes "acquire_lock"))
        w)

  abbrev pub after_queued :
      Cursor → PreparedRun → LifecycleResult → Result Cause Cursor × World E → Outcome × World E
  after_queued c p r (err e, w) = (finished r c.state (some e), w)
  after_queued c p r (ok c', w) =
      let (canceled', e) = s.context_error w.env in check_context c' p r canceled' (moved e w)

  -- `ExecuteConfirmed`
  unfoldable pub execute_confirmed : PreparedRun → World E → Outcome × World E
  execute_confirmed p w =
      let r = fresh_result p in
      let c = start_cursor p in
      let next = after_queued c p r (
        advance s caller c p.run_id queued (literal (codes "confirmed operation queued"))
          (literal (codes "confirmed")) w) in
      if not (p.state == awaiting_confirmation)
      then (finished r p.state (some not_awaiting_confirmation), w)
      else if not (s.metadata.id == p.metadata.id)
      then (finished r p.state (some wrong_definition), w)
      else next
