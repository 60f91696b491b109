-- ===== src/Operation/Coordinator/Prewrite.antt =====
-- app/internal/operation/lifecycle.go: `ExecuteConfirmed` from the granted lock up to `Apply` leaves
-- the record in order.
use setpoint_ci_mirror.Base.{
  ◌≡◌, refl, sym, ap, ap₂, subst, ◌∙◌, inl, inr, true, false, ◌&&◌, ◌||◌, Option, none, some,
  Result, ok, err, Bool-cases,
}
use setpoint_ci_mirror.Operation.State.{creating_restore_point, running, state_beq}
use setpoint_ci_mirror.Operation.Lock.{LockLease, LockError}
use setpoint_ci_mirror.Operation.Definition.{Verification}
use setpoint_ci_mirror.Operation.RestorePoint.{
  RestorePoint, RestorePointError, validate_restore_point, verified,
}
use setpoint_ci_mirror.Operation.Coordinator.{
  Cause, caller, Cursor, World, Services, PreparedRun, LifecycleResult, is_none, did_pass, note,
  moved, released, point_created, point_verified, point_not_verified,
}
use setpoint_ci_mirror.Operation.Coordinator.Trace.{
  has, is_succeeded, is_point_created, is_point_verified, Facts, facts, IsAt, IsEnded,
}
use setpoint_ci_mirror.Operation.Coordinator.Advance.{Advanced, advance-Advanced}
use setpoint_ci_mirror.Operation.Coordinator.Ending.{
  finish_prewrite-IsEnded, block_before_apply-IsEnded,
}
use setpoint_ci_mirror.Operation.Coordinator.Written.{call_apply-IsEnded}
use setpoint_ci_mirror.Operation.Coordinator.Execute.{
  is_ok, after_running, start_apply, check_session, point_checked, point_answered, created,
  after_creating, with_lease, give_back, coverage_checked,
}

-- The lock is held, and nothing was written.
pub record IsHeld (f : Facts) : Type 0 where
  pub granted : f.granted ≡ true
  pub release : f.release ≡ false
  pub apply : f.apply ≡ false
  pub rollback : f.rollback ≡ false

module _ (start : Cursor) (p : PreparedRun) {E : Type 0} (s : Services E) where
  after_running-IsEnded :
      (c : Cursor) (r : LifecycleResult) (w : World E) (q : Result Cause Cursor × World E)
      → Advanced start p.run_id s c running w q
      → is_succeeded c.state ≡ false
      → IsHeld (facts w.calls)
      → IsEnded start p.run_id (after_running s c p r q).0 (after_running s c p r q).1
  after_running-IsEnded c r w (ok c', w') (is_to, at, same) bad k =
      let k' = subst IsHeld (sym same) k in
      call_apply-IsEnded start p s c' r w' at is_to k'.granted k'.release k'.apply k'.rollback
  after_running-IsEnded c r w (err e, w') (at, same, refused) bad k =
      finish_prewrite-IsEnded start p.run_id s c r e true w' at bad
        (ap (λ f. f.granted) same ∙ k.granted)

  start_apply-IsEnded :
      (c : Cursor) (r : LifecycleResult) (failure : Option Cause) (w : World E)
      → IsAt start p.run_id c w
      → is_succeeded c.state ≡ false
      → IsHeld (facts w.calls)
      → has is_point_created w.calls ≡ true
      → has is_point_verified w.calls ≡ true
      → IsEnded start p.run_id (start_apply s c p r failure w).0 (start_apply s c p r failure w).1
  unfolding start_apply
  start_apply-IsEnded c r (some e) w h bad k made good =
      finish_prewrite-IsEnded start p.run_id s c r e false w h bad k.granted
  start_apply-IsEnded c r none w h bad k made good =
      after_running-IsEnded c r w _
        (advance-Advanced start p.run_id s caller c running _ _ w h
          (ap₂ ◌&&◌ (ap₂ ◌&&◌ k.granted made) good))
        bad k

  check_session-IsEnded :
      (c : Cursor) (r : LifecycleResult) (lost : Option Cause) (w : World E)
      → IsAt start p.run_id c w
      → is_succeeded c.state ≡ false
      → IsHeld (facts w.calls)
      → has is_point_created w.calls ≡ true
      → has is_point_verified w.calls ≡ true
      → IsEnded start p.run_id (check_session s c p r lost w).0 (check_session s c p r lost w).1
  unfolding check_session
  check_session-IsEnded c r (some e) w h bad k made good =
      finish_prewrite-IsEnded start p.run_id s c r _ true w h bad k.granted
  check_session-IsEnded c r none w h bad k made good =
      let (failure, e) = s.context_error w.env in
      start_apply-IsEnded c r failure (moved e w) (record { safe = h.safe; place = h.place }) bad k
        made good

  point_checked-IsEnded :
      (c : Cursor) (r : LifecycleResult) (q : Result RestorePointError Unit) (w : World E)
      → IsAt start p.run_id c w
      → is_succeeded c.state ≡ false
      → IsHeld (facts w.calls)
      → has is_point_created w.calls ≡ true
      → has is_point_verified w.calls ≡ true
      → IsEnded start p.run_id (point_checked s c p r q w).0 (point_checked s c p r q w).1
  point_checked-IsEnded c r (err e) w h bad k made good =
      finish_prewrite-IsEnded start p.run_id s c r _ false w h bad k.granted
  point_checked-IsEnded c r (ok u) w h bad k made good =
      let (lost, e) = s.session_error w.env in
      check_session-IsEnded c r lost (moved e w) (record { safe = h.safe; place = h.place }) bad k
        made good

  point_answered-IsEnded :
      (c : Cursor) (r : LifecycleResult) (v : Result Cause Verification) (w : World E)
      → IsAt start p.run_id c w
      → is_succeeded c.state ≡ false
      → IsHeld (facts w.calls)
      → has is_point_created w.calls ≡ true
      → (did_pass v ≡ true → has is_point_verified w.calls ≡ true)
      → IsEnded start p.run_id (point_answered s c p r v w).0 (point_answered s c p r v w).1
  unfolding point_answered
  point_answered-IsEnded c r (err e) w h bad k made good =
      finish_prewrite-IsEnded start p.run_id s c r _ false w h bad k.granted
  point_answered-IsEnded c r (ok v) w h bad k made good =
      let point = record r.restore_point { status = verified } in
      let (now, e') = s.now w.env in
      elim (Bool-cases v.passed) [
        | inl e ↦ rw e (
            point_checked-IsEnded c (record r { restore_point = point })
              (validate_restore_point point now) (moved e' w)
              (record { safe = h.safe; place = h.place }) bad k made (good e))
        | inr e ↦ rw e (
            finish_prewrite-IsEnded start p.run_id s c r point_not_verified false w h bad k.granted)
      ]

  created-IsEnded :
      (c : Cursor) (r : LifecycleResult) (q : Result Cause RestorePoint) (w : World E)
      → IsAt start p.run_id c w
      → is_succeeded c.state ≡ false
      → IsHeld (facts w.calls)
      → (is_ok q ≡ true → has is_point_created w.calls ≡ true)
      → IsEnded start p.run_id (created s c p r q w).0 (created s c p r q w).1
  unfolding created
  created-IsEnded c r (err e) w h bad k made =
      finish_prewrite-IsEnded start p.run_id s c r _ false w h bad k.granted
  created-IsEnded c r (ok point) w h bad k made =
      let (v, e) = s.verify_point point w.env in
      point_answered-IsEnded c (record r { restore_point = point }) v
        (note (point_verified (did_pass v)) e w) (record { safe = (tt, h.safe); place = h.place })
        bad
        (record {
          granted = k.granted;
          release = k.release;
          apply = k.apply;
          rollback = k.rollback;
        })
        (made refl) (λ t. ap (λ b. b || has is_point_verified w.calls) t)

  after_creating-IsEnded :
      (c : Cursor) (r : LifecycleResult) (w : World E) (q : Result Cause Cursor × World E)
      → Advanced start p.run_id s c creating_restore_point w q
      → is_succeeded c.state ≡ false
      → IsHeld (facts w.calls)
      → IsEnded start p.run_id (after_creating s c p r q).0 (after_creating s c p r q).1
  unfolding state_beq
  after_creating-IsEnded c r w (err e, w') (at, same, refused) bad k =
      finish_prewrite-IsEnded start p.run_id s c r e false w' at bad
        (ap (λ f. f.granted) same ∙ k.granted)
  after_creating-IsEnded c r w (ok c', w') (is_to, at, same) bad k =
      let (point, e) = s.create_point p.plan p.discovery.targets p.run_id w'.env in
      let k' = subst IsHeld (sym same) k in
      created-IsEnded c' r point (note (point_created (is_ok point)) e w')
        (record { safe = (tt, at.safe); place = at.place }) (ap is_succeeded is_to)
        (record {
          granted = k'.granted;
          release = k'.release;
          apply = k'.apply;
          rollback = k'.rollback;
        })
        (λ t. ap (λ b. b || has is_point_created w'.calls) t)

  with_lease-IsEnded :
      (c : Cursor) (r : LifecycleResult) (lease : LockLease) (w : World E)
      → IsAt start p.run_id c w
      → is_succeeded c.state ≡ false
      → IsHeld (facts w.calls)
      → IsEnded start p.run_id (with_lease s c p r lease w).0 (with_lease s c p r lease w).1
  unfolding with_lease
  with_lease-IsEnded c r lease w h bad k =
      let w' = moved (s.start_session lease w.env) w in
      after_creating-IsEnded c r w' _
        (advance-Advanced start p.run_id s caller c creating_restore_point _ _ w'
          (record { safe = h.safe; place = h.place }) refl)
        bad k

  give_back-IsEnded :
      (c : Cursor) (r : LifecycleResult) (error : LockError) (lease : LockLease) (w : World E)
      → IsAt start p.run_id c w
      → is_succeeded c.state ≡ false
      → IsHeld (facts w.calls)
      → IsEnded start p.run_id
          (give_back s c p r error lease w).0
          (give_back s c p r error lease w).1
  unfolding give_back
  give_back-IsEnded c r error lease w h bad k =
      let (failure, e) = s.release lease w.env in
      block_before_apply-IsEnded start p.run_id s c r _ (note (released (is_none failure)) e w)
        (record { safe = (k.granted, h.safe); place = h.place }) bad (inr refl)

  -- The lock was granted, and nothing else happened.
  pub coverage_checked-IsEnded :
      (c : Cursor) (r : LifecycleResult) (lease : LockLease) (q : Result LockError Unit)
      (w : World E)
      → IsAt start p.run_id c w
      → is_succeeded c.state ≡ false
      → IsHeld (facts w.calls)
      → IsEnded start p.run_id
          (coverage_checked s c p r lease q w).0
          (coverage_checked s c p r lease q w).1
  coverage_checked-IsEnded c r lease (err e) w h bad k = give_back-IsEnded c r e lease w h bad k
  coverage_checked-IsEnded c r lease (ok u) w h bad k = with_lease-IsEnded c r lease w h bad k
