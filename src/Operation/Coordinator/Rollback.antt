-- ===== src/Operation/Coordinator/Rollback.antt =====
-- app/internal/operation/lifecycle.go: `rollback` leaves the record in order.
use setpoint_ci_mirror.Base.{
  ◌≡◌, refl, sym, ap, subst, ◌∙◌, inl, inr, true, false, ◌&&◌, ◌||◌, Option, none, some, Result, ok,
  err, Bool-cases, arith,
}
use setpoint_ci_mirror.Operation.State.{rolling_back, can_transition, state_beq}
use setpoint_ci_mirror.Operation.Definition.{Verification}
use setpoint_ci_mirror.Operation.Coordinator.{
  Cause, joined, background, Cursor, World, Services, PreparedRun, LifecycleResult, is_none, note,
  moved, rolled, rollback_checked, plugin_rollback_not_passed,
}
use setpoint_ci_mirror.Operation.Coordinator.Trace.{
  has, is_succeeded, is_granted, is_rolled, is_rollback_checked, Facts, facts, IsAt, IsEnded,
}
use setpoint_ci_mirror.Operation.Coordinator.Advance.{Advanced, advance-Advanced}
use setpoint_ci_mirror.Operation.Coordinator.Ending.{
  interrupt_after_write-IsEnded, fail_rollback-IsEnded,
}
use setpoint_ci_mirror.Operation.Coordinator.Finish.{
  plugin_verified, verify_rollback, rolled_data, call_rollback, after_rolling_back, session_lost,
  roll_back,
}
use setpoint_ci_mirror.Operation.Coordinator.Restored.{verify_restored-IsEnded}

-- The lock is held, and a write was started.
pub record IsWriting (f : Facts) : Type 0 where
  pub granted : f.granted ≡ true
  pub release : f.release ≡ false
  pub apply : f.apply ≡ true
  pub rollback : f.rollback ≡ false

module _ (start : Cursor) (p : PreparedRun) {E : Type 0} (s : Services E) where
  plugin_verified-IsEnded :
      (c : Cursor) (r : LifecycleResult) (cause : Cause) (v : Verification) (failure : Option Cause)
      (w : World E)
      → IsAt start p.run_id c w
      → is_succeeded c.state ≡ false
      → has is_granted w.calls ≡ true
      → has is_rolled w.calls ≡ true
      → ((is_none failure && v.passed) ≡ true → has is_rollback_checked w.calls ≡ true)
      → IsEnded start p.run_id
          (plugin_verified s c p.run_id r cause v failure w).0
          (plugin_verified s c p.run_id r cause v failure w).1
  unfolding plugin_verified
  plugin_verified-IsEnded c r cause v (some e) w h bad held rolled' checked =
      fail_rollback-IsEnded start p.run_id s c r (joined cause e) w h bad held
  plugin_verified-IsEnded c r cause v none w h bad held rolled' checked =
      elim (Bool-cases v.passed) [
        | inl e ↦ rw e (
            verify_restored-IsEnded start p s c r cause w h bad (record {
              granted = held;
              rolled = rolled';
              checked = checked e;
              restored_is = λ t. ground arith;
            }))
        | inr e ↦ rw e (
            fail_rollback-IsEnded start p.run_id s c r (joined cause plugin_rollback_not_passed) w h
              bad held)
      ]

  verify_rollback-IsEnded :
      (c : Cursor) (r : LifecycleResult) (cause : Cause) (w : World E)
      → IsAt start p.run_id c w
      → is_succeeded c.state ≡ false
      → has is_granted w.calls ≡ true
      → has is_rolled w.calls ≡ true
      → IsEnded start p.run_id
          (verify_rollback s c p r cause w).0
          (verify_rollback s c p r cause w).1
  unfolding verify_rollback
  verify_rollback-IsEnded c r cause w h bad held rolled' =
      let (v, failure, e) = s.verify_rollback p.runtime p.plan r.rollback r.restore_point w.env in
      let passed = is_none failure && v.passed in
      plugin_verified-IsEnded c (record r { rollback_verification = v }) cause v failure
        (note (rollback_checked passed) e w) (record { safe = (tt, h.safe); place = h.place }) bad
        held rolled' (λ t. ap (λ b. b || has is_rollback_checked w.calls) t)

  rolled_data-IsEnded :
      (c : Cursor) (r : LifecycleResult) (cause : Cause) (failure : Option Cause) (w : World E)
      → IsAt start p.run_id c w
      → is_succeeded c.state ≡ false
      → has is_granted w.calls ≡ true
      → (is_none failure ≡ true → has is_rolled w.calls ≡ true)
      → IsEnded start p.run_id
          (rolled_data s c p r cause failure w).0
          (rolled_data s c p r cause failure w).1
  rolled_data-IsEnded c r cause none w h bad held did =
      verify_rollback-IsEnded c r cause w h bad held (did refl)
  rolled_data-IsEnded c r cause (some e) w h bad held did =
      fail_rollback-IsEnded start p.run_id s c r _ w h bad held

  call_rollback-IsEnded :
      (c : Cursor) (r : LifecycleResult) (cause : Cause) (w : World E)
      → IsAt start p.run_id c w
      → c.state ≡ rolling_back
      → IsWriting (facts w.calls)
      → IsEnded start p.run_id (call_rollback s c p r cause w).0 (call_rollback s c p r cause w).1
  unfolding call_rollback state_beq
  call_rollback-IsEnded c r cause w h is_rolling k =
      let (data', failure, e) = s.rollback p.runtime p.plan r.apply r.restore_point w.env in
      rolled_data-IsEnded c (record r { rollback = data' }) cause failure
        (note (rolled (is_none failure)) e w)
        (record {
          safe =
              ((ap (λ (d : Cursor). d.state) h.place ∙ is_rolling, k.rollback, k.release), h.safe);
          place = h.place;
        })
        (ap is_succeeded is_rolling) k.granted (λ t. ap (λ b. b || has is_rolled w.calls) t)

  after_rolling_back-IsEnded :
      (c : Cursor) (r : LifecycleResult) (cause : Cause) (w : World E)
      (q : Result Cause Cursor × World E)
      → Advanced start p.run_id s c rolling_back w q
      → can_transition c.state rolling_back ≡ true
      → is_succeeded c.state ≡ false
      → IsWriting (facts w.calls)
      → IsEnded start p.run_id
          (after_rolling_back s c p r cause q).0
          (after_rolling_back s c p r cause q).1
  after_rolling_back-IsEnded c r cause w (ok c', w') (is_to, at, same) can bad k =
      call_rollback-IsEnded c' r cause w' at is_to (subst IsWriting (sym same) k)
  after_rolling_back-IsEnded c r cause w (err e, w') (at, same, refused) can bad k = record {
    safe = at.safe;
    state = ap (λ (d : Cursor). d.state) at.place;
    lock = inr (inr (refused can));
    verdict = sym bad;
  }

  session_lost-IsEnded :
      (c : Cursor) (r : LifecycleResult) (cause : Cause) (lost : Option Cause) (w : World E)
      → IsAt start p.run_id c w
      → can_transition c.state rolling_back ≡ true
      → is_succeeded c.state ≡ false
      → IsWriting (facts w.calls)
      → IsEnded start p.run_id
          (session_lost s c p r cause lost w).0
          (session_lost s c p r cause lost w).1
  unfolding session_lost
  session_lost-IsEnded c r cause (some e) w h can bad k =
      interrupt_after_write-IsEnded start p.run_id s c r _ w h bad k.granted
  session_lost-IsEnded c r cause none w h can bad k =
      after_rolling_back-IsEnded c r cause w _
        (advance-Advanced start p.run_id s background c rolling_back _ _ w h k.apply) can bad k

  pub roll_back-IsEnded :
      (c : Cursor) (r : LifecycleResult) (cause : Cause) (w : World E)
      → IsAt start p.run_id c w
      → can_transition c.state rolling_back ≡ true
      → is_succeeded c.state ≡ false
      → IsWriting (facts w.calls)
      → IsEnded start p.run_id (roll_back s c p r cause w).0 (roll_back s c p r cause w).1
  unfolding roll_back
  roll_back-IsEnded c r cause w h can bad k =
      let (lost, e) = s.session_error w.env in
      session_lost-IsEnded c r cause lost (moved e w) (record { safe = h.safe; place = h.place })
        can bad k
