-- ===== src/Operation/Coordinator/Restored.antt =====
-- app/internal/operation/lifecycle.go: the end of `rollback`, the check of the restored state and the
-- release of the lock.
use setpoint_ci_mirror.Base.{
  ◌≡◌, refl, ap, ap₂, subst, inl, inr, Bool, true, false, ◌&&◌, ◌||◌, Option, none, some, Result,
  ok, err, Bool-cases,
}
use setpoint_ci_mirror.Operation.State.{interrupted, rolled_back, state_beq}
use setpoint_ci_mirror.Operation.Definition.{Verification}
use setpoint_ci_mirror.Operation.Coordinator.{
  Cause, joined, background, Cursor, World, Services, PreparedRun, LifecycleResult, is_none,
  did_pass, note, release_lease, restore_checked, restored_not_passed,
}
use setpoint_ci_mirror.Operation.Coordinator.Trace.{
  has, is_succeeded, is_released, is_restore_checked, Facts, facts, IsAt, IsEnded,
}
use setpoint_ci_mirror.Operation.Coordinator.Advance.{Advanced, advance-Advanced}
use setpoint_ci_mirror.Operation.Coordinator.Ending.{
  IsUnlocked, entered-IsEnded, refused-IsEnded, release-IsAt, release-IsUnlocked,
  release-is_released, fail_rollback-IsEnded,
}
use setpoint_ci_mirror.Operation.Coordinator.Finish.{
  after_rolled_back, after_release_failed, rollback_released, restored_verified, verify_restored,
}

-- The rollback was made and its first check passed; `restored` says whether the second did.
pub record IsRolled (f : Facts) (restored : Bool) : Type 0 where
  pub granted : f.granted ≡ true
  pub rolled : f.rolled ≡ true
  pub checked : f.rollback_checked ≡ true
  pub restored_is : restored ≡ true → f.restore_checked ≡ true

module _ (start : Cursor) (p : PreparedRun) {E : Type 0} (s : Services E) where
  rolled_back-IsEnded :
      (r : LifecycleResult) (c : Cursor) (cause : Cause) (w : World E)
      (q : Result Cause Cursor × World E)
      → Advanced start p.run_id s c rolled_back w q
      → is_succeeded c.state ≡ false
      → IsUnlocked (facts w.calls)
      → IsEnded start p.run_id
          (after_rolled_back s c r cause q).0
          (after_rolled_back s c r cause q).1
  unfolding state_beq
  rolled_back-IsEnded r c cause w (ok c', w') a bad free =
      entered-IsEnded start p.run_id s r c c' rolled_back cause w w' a refl free
  rolled_back-IsEnded r c cause w (err e, w') a bad free =
      refused-IsEnded start p.run_id s r c rolled_back (joined cause e) e w w' a bad free

  release_failed-IsEnded :
      (r : LifecycleResult) (c : Cursor) (cause e : Cause) (w : World E)
      (q : Result Cause Cursor × World E)
      → Advanced start p.run_id s c interrupted w q
      → is_succeeded c.state ≡ false
      → IsUnlocked (facts w.calls)
      → IsEnded start p.run_id
          (after_release_failed s c r cause e q).0
          (after_release_failed s c r cause e q).1
  unfolding state_beq
  release_failed-IsEnded r c cause e w (ok c', w') a bad free =
      entered-IsEnded start p.run_id s r c c' interrupted (joined cause e) w w' a refl free
  release_failed-IsEnded r c cause e w (err f, w') a bad free =
      refused-IsEnded start p.run_id s r c interrupted (joined cause (joined e f)) f w w' a bad free

  rollback_released-IsEnded :
      (c : Cursor) (r : LifecycleResult) (cause : Cause) (failure : Option Cause) (w : World E)
      → IsAt start p.run_id c w
      → is_succeeded c.state ≡ false
      → IsUnlocked (facts w.calls)
      → IsRolled (facts w.calls) true
      → (is_none failure ≡ true → has is_released w.calls ≡ true)
      → IsEnded start p.run_id
          (rollback_released s c p.run_id r cause (failure, w)).0
          (rollback_released s c p.run_id r cause (failure, w)).1
  unfolding rollback_released
  rollback_released-IsEnded c r cause none w h bad free k given =
      rolled_back-IsEnded r c cause w _
        (advance-Advanced start p.run_id s background c rolled_back _ _ w h
          (ap₂ ◌&&◌ (ap₂ ◌&&◌ (ap₂ ◌&&◌ k.rolled k.checked) (k.restored_is refl)) (given refl)))
        bad free
  rollback_released-IsEnded c r cause (some e) w h bad free k given =
      release_failed-IsEnded r c cause e w _
        (advance-Advanced start p.run_id s background c interrupted _ _ w h refl) bad free

  release-IsRolled :
      (w : World E)
      → IsRolled (facts w.calls) true
      → IsRolled (facts (release_lease s w).1.calls) true
  unfolding release_lease
  release-IsRolled w k = record {
    granted = k.granted;
    rolled = k.rolled;
    checked = k.checked;
    restored_is = k.restored_is;
  }

  -- A restore whose two checks passed is followed by the release of the lock.
  release_rolled-IsEnded :
      (c : Cursor) (r : LifecycleResult) (cause : Cause) (w : World E)
      → IsAt start p.run_id c w
      → is_succeeded c.state ≡ false
      → IsRolled (facts w.calls) true
      → IsEnded start p.run_id
          (rollback_released s c p.run_id r cause (release_lease s w)).0
          (rollback_released s c p.run_id r cause (release_lease s w)).1
  release_rolled-IsEnded c r cause w h bad k =
      let (failure, w') = release_lease s w in
      rollback_released-IsEnded c r cause failure w' (release-IsAt start p.run_id s c w h k.granted)
        bad (release-IsUnlocked start p.run_id s w) (release-IsRolled w k)
        (release-is_released start p.run_id s w)

  restored_verified-IsEnded :
      (c : Cursor) (r : LifecycleResult) (cause : Cause) (v : Result Cause Verification)
      (w : World E)
      → IsAt start p.run_id c w
      → is_succeeded c.state ≡ false
      → IsRolled (facts w.calls) (did_pass v)
      → IsEnded start p.run_id
          (restored_verified s c p.run_id r cause v w).0
          (restored_verified s c p.run_id r cause v w).1
  unfolding restored_verified
  restored_verified-IsEnded c r cause (err e) w h bad k =
      fail_rollback-IsEnded start p.run_id s c r (joined cause e) w h bad k.granted
  restored_verified-IsEnded c r cause (ok v) w h bad k = elim (Bool-cases v.passed) [
    | inl e ↦ rw e (release_rolled-IsEnded c r cause w h bad (subst (IsRolled (facts w.calls)) e k))
    | inr e ↦ rw e (
        fail_rollback-IsEnded start p.run_id s c r (joined cause restored_not_passed) w h bad
          k.granted)
  ]

  pub verify_restored-IsEnded :
      (c : Cursor) (r : LifecycleResult) (cause : Cause) (w : World E)
      → IsAt start p.run_id c w
      → is_succeeded c.state ≡ false
      → IsRolled (facts w.calls) false
      → IsEnded start p.run_id
          (verify_restored s c p.run_id r cause w).0
          (verify_restored s c p.run_id r cause w).1
  unfolding verify_restored
  verify_restored-IsEnded c r cause w h bad k =
      let (v, e) = s.verify_restored r.restore_point r.rollback w.env in
      restored_verified-IsEnded c r cause v (note (restore_checked (did_pass v)) e w)
        (record { safe = (tt, h.safe); place = h.place }) bad
        (record {
          granted = k.granted;
          rolled = k.rolled;
          checked = k.checked;
          restored_is = λ t. ap (λ b. b || has is_restore_checked w.calls) t;
        })
