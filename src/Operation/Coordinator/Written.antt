-- ===== src/Operation/Coordinator/Written.antt =====
-- app/internal/operation/lifecycle.go: `ExecuteConfirmed` from `Apply` on leaves the record in order.
use setpoint_ci_mirror.Base.{
  ◌≡◌, refl, sym, ap, ap₂, subst, ◌∙◌, inl, inr, true, false, ◌&&◌, ◌||◌, Option, none, some,
  Result, ok, err, Bool-cases,
}
use setpoint_ci_mirror.Operation.State.{
  running, verifying, succeeded, interrupted, rolling_back, can_transition, state_beq,
}
use setpoint_ci_mirror.Operation.Definition.{Verification}
use setpoint_ci_mirror.Operation.Coordinator.{
  Cause, joined, background, Cursor, World, Services, PreparedRun, LifecycleResult, is_none, note,
  release_lease, applied, result_verified, verification_not_passed,
}
use setpoint_ci_mirror.Operation.Coordinator.Trace.{
  has, is_succeeded, is_granted, is_released, is_applied, is_verified, facts, IsAt, IsEnded,
}
use setpoint_ci_mirror.Operation.Coordinator.Advance.{Advanced, advance-Advanced}
use setpoint_ci_mirror.Operation.Coordinator.Ending.{
  IsUnlocked, entered-IsEnded, refused-IsEnded, release-IsAt, release-IsUnlocked,
  release-is_released, interrupt_after_write-IsEnded,
}
use setpoint_ci_mirror.Operation.Coordinator.Rollback.{IsWriting, roll_back-IsEnded}
use setpoint_ci_mirror.Operation.Coordinator.Execute.{
  after_succeeded, after_not_released, complete_released, complete, verify_answered, call_verify,
  after_verifying, apply_answered, call_apply,
}

module _ (start : Cursor) (p : PreparedRun) {E : Type 0} (s : Services E) where
  after_succeeded-IsEnded :
      (c : Cursor) (r : LifecycleResult) (w : World E) (q : Result Cause Cursor × World E)
      → Advanced start p.run_id s c succeeded w q
      → is_succeeded c.state ≡ false
      → IsUnlocked (facts w.calls)
      → IsEnded start p.run_id (after_succeeded s c r q).0 (after_succeeded s c r q).1
  unfolding state_beq
  after_succeeded-IsEnded c r w (ok c', w') (is_to, at, same) bad free = record {
    safe = at.safe;
    state = ap (λ (d : Cursor). d.state) at.place;
    lock = elim (subst IsUnlocked (sym same) free) [ inl a ↦ inl a | inr b ↦ inr (inl b) ];
    verdict = ap is_succeeded (sym is_to);
  }
  after_succeeded-IsEnded c r w (err e, w') a bad free =
      refused-IsEnded start p.run_id s r c succeeded e e w w' a bad free

  after_not_released-IsEnded :
      (c : Cursor) (r : LifecycleResult) (e : Cause) (w : World E)
      (q : Result Cause Cursor × World E)
      → Advanced start p.run_id s c interrupted w q
      → is_succeeded c.state ≡ false
      → IsUnlocked (facts w.calls)
      → IsEnded start p.run_id (after_not_released s c r e q).0 (after_not_released s c r e q).1
  unfolding state_beq
  after_not_released-IsEnded c r e w (ok c', w') a bad free =
      entered-IsEnded start p.run_id s r c c' interrupted e w w' a refl free
  after_not_released-IsEnded c r e w (err f, w') a bad free =
      refused-IsEnded start p.run_id s r c interrupted (joined e f) f w w' a bad free

  complete_released-IsEnded :
      (c : Cursor) (r : LifecycleResult) (failure : Option Cause) (w : World E)
      → IsAt start p.run_id c w
      → is_succeeded c.state ≡ false
      → IsUnlocked (facts w.calls)
      → has is_applied w.calls ≡ true
      → has is_verified w.calls ≡ true
      → (is_none failure ≡ true → has is_released w.calls ≡ true)
      → IsEnded start p.run_id
          (complete_released s c p r (failure, w)).0
          (complete_released s c p r (failure, w)).1
  complete_released-IsEnded c r none w h bad free did_apply did_verify given =
      after_succeeded-IsEnded c r w _
        (advance-Advanced start p.run_id s background c succeeded _ _ w h
          (ap₂ ◌&&◌ (ap₂ ◌&&◌ did_apply did_verify) (given refl)))
        bad free
  complete_released-IsEnded c r (some e) w h bad free did_apply did_verify given =
      after_not_released-IsEnded c r e w _
        (advance-Advanced start p.run_id s background c interrupted _ _ w h refl) bad free

  release-applied :
      (w : World E) → has is_applied (release_lease s w).1.calls ≡ has is_applied w.calls
  unfolding release_lease
  release-applied w = refl

  release-verified :
      (w : World E) → has is_verified (release_lease s w).1.calls ≡ has is_verified w.calls
  unfolding release_lease
  release-verified w = refl

  complete-IsEnded :
      (c : Cursor) (r : LifecycleResult) (w : World E)
      → IsAt start p.run_id c w
      → is_succeeded c.state ≡ false
      → has is_granted w.calls ≡ true
      → has is_applied w.calls ≡ true
      → has is_verified w.calls ≡ true
      → IsEnded start p.run_id (complete s c p r w).0 (complete s c p r w).1
  unfolding complete
  complete-IsEnded c r w h bad held did_apply did_verify =
      let (failure, w') = release_lease s w in
      complete_released-IsEnded c r failure w' (release-IsAt start p.run_id s c w h held) bad
        (release-IsUnlocked start p.run_id s w) (release-applied w ∙ did_apply)
        (release-verified w ∙ did_verify) (release-is_released start p.run_id s w)

  verify_answered-IsEnded :
      (c : Cursor) (r : LifecycleResult) (v : Verification) (failure lost : Option Cause)
      (w : World E)
      → IsAt start p.run_id c w
      → can_transition c.state rolling_back ≡ true
      → is_succeeded c.state ≡ false
      → IsWriting (facts w.calls)
      → has is_applied w.calls ≡ true
      → ((is_none failure && v.passed) ≡ true → has is_verified w.calls ≡ true)
      → IsEnded start p.run_id
          (verify_answered s c p r v failure lost w).0
          (verify_answered s c p r v failure lost w).1
  unfolding verify_answered
  verify_answered-IsEnded c r v failure (some lost) w h can bad k did_apply passed =
      interrupt_after_write-IsEnded start p.run_id s c r _ w h bad k.granted
  verify_answered-IsEnded c r v (some e) none w h can bad k did_apply passed =
      roll_back-IsEnded start p s c r _ w h can bad k
  verify_answered-IsEnded c r v none none w h can bad k did_apply passed =
      elim (Bool-cases v.passed) [
        | inl e ↦ rw e (complete-IsEnded c r w h bad k.granted did_apply (passed e))
        | inr e ↦ rw e (roll_back-IsEnded start p s c r verification_not_passed w h can bad k)
      ]

  call_verify-IsEnded :
      (c : Cursor) (r : LifecycleResult) (w : World E)
      → IsAt start p.run_id c w
      → c.state ≡ verifying
      → IsWriting (facts w.calls)
      → has is_applied w.calls ≡ true
      → IsEnded start p.run_id (call_verify s c p r w).0 (call_verify s c p r w).1
  unfolding call_verify state_beq can_transition
  call_verify-IsEnded c r w h is_to k did_apply =
      let (v, failure, e) = s.verify p.runtime p.plan r.apply w.env in
      let (lost, e') = s.session_error e in
      let passed = is_none failure && v.passed in
      verify_answered-IsEnded c (record r { verification = v }) v failure lost
        (note (result_verified passed) e' w)
        (record { safe = (ap (λ (d : Cursor). d.state) h.place ∙ is_to, h.safe); place = h.place })
        (ap (λ t. can_transition t rolling_back) is_to) (ap is_succeeded is_to)
        (record {
          granted = k.granted;
          release = k.release;
          apply = k.apply;
          rollback = k.rollback;
        })
        did_apply (λ t. ap (λ b. b || has is_verified w.calls) t)

  after_verifying-IsEnded :
      (c : Cursor) (r : LifecycleResult) (w : World E) (q : Result Cause Cursor × World E)
      → Advanced start p.run_id s c verifying w q
      → can_transition c.state rolling_back ≡ true
      → is_succeeded c.state ≡ false
      → IsWriting (facts w.calls)
      → has is_applied w.calls ≡ true
      → IsEnded start p.run_id (after_verifying s c p r q).0 (after_verifying s c p r q).1
  after_verifying-IsEnded c r w (ok c', w') (is_to, at, same) can bad k did_apply =
      call_verify-IsEnded c' r w' at is_to (subst IsWriting (sym same) k)
        (ap (λ f. f.applied) same ∙ did_apply)
  after_verifying-IsEnded c r w (err e, w') (at, same, refused) can bad k did_apply =
      roll_back-IsEnded start p s c r e w' at can bad (subst IsWriting (sym same) k)

  apply_answered-IsEnded :
      (c : Cursor) (r : LifecycleResult) (failure lost : Option Cause) (w : World E)
      → IsAt start p.run_id c w
      → can_transition c.state rolling_back ≡ true
      → is_succeeded c.state ≡ false
      → IsWriting (facts w.calls)
      → (is_none failure ≡ true → has is_applied w.calls ≡ true)
      → IsEnded start p.run_id
          (apply_answered s c p r failure lost w).0
          (apply_answered s c p r failure lost w).1
  unfolding apply_answered
  apply_answered-IsEnded c r failure (some lost) w h can bad k did_apply =
      interrupt_after_write-IsEnded start p.run_id s c r _ w h bad k.granted
  apply_answered-IsEnded c r (some e) none w h can bad k did_apply =
      roll_back-IsEnded start p s c r _ w h can bad k
  apply_answered-IsEnded c r none none w h can bad k did_apply =
      after_verifying-IsEnded c r w _
        (advance-Advanced start p.run_id s background c verifying _ _ w h (did_apply refl)) can bad
        k (did_apply refl)

  -- `Apply` is called with the lock held and `running` journaled, for the first time.
  pub call_apply-IsEnded :
      (c : Cursor) (r : LifecycleResult) (w : World E)
      → IsAt start p.run_id c w
      → c.state ≡ running
      → has is_granted w.calls ≡ true
      → (facts w.calls).release ≡ false
      → (facts w.calls).apply ≡ false
      → (facts w.calls).rollback ≡ false
      → IsEnded start p.run_id (call_apply s c p r w).0 (call_apply s c p r w).1
  unfolding call_apply state_beq can_transition
  call_apply-IsEnded c r w h is_to held kept first unrolled =
      let (a, failure, e) = s.apply p.runtime p.plan p.impact r.restore_point w.env in
      let (lost, e') = s.session_error e in
      apply_answered-IsEnded c (record r { apply = a }) failure lost
        (note (applied (is_none failure)) e' w)
        (record {
          safe = ((ap (λ (d : Cursor). d.state) h.place ∙ is_to, first, kept), h.safe);
          place = h.place;
        })
        (ap (λ t. can_transition t rolling_back) is_to) (ap is_succeeded is_to)
        (record { granted = held; release = kept; apply = refl; rollback = unrolled })
        (λ t. ap (λ b. b || has is_applied w.calls) t)
