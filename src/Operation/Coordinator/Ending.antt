-- ===== src/Operation/Coordinator/Ending.antt =====
-- app/internal/operation/lifecycle.go: the early ends of an execution, from `blockBeforeApply` to
-- `rollback`, leave the record in order.
use setpoint_ci_mirror.Base.{
  ◌≡◌, refl, sym, ap, subst, ◌∙◌, ◌⊎◌, inl, inr, Bool, true, false, ◌||◌, Option, none, some,
  Result, ok, err, Bool-cases,
}
use setpoint_ci_mirror.Base.Text.{Text, codes}
use setpoint_ci_mirror.Operation.State.{
  State, blocked, interrupted, canceled_before_apply, rollback_failed, can_transition, state_beq,
}
use setpoint_ci_mirror.Operation.Coordinator.{
  Cause, joined, join, literal, background, Cursor, World, Services, LifecycleResult, is_none,
  is_canceled, finished, wrap_option, advance, release_lease,
}
use setpoint_ci_mirror.Operation.Coordinator.Trace.{
  has, earned, is_succeeded, is_granted, is_released, Facts, facts, IsAt, IsEnded,
}
use setpoint_ci_mirror.Operation.Coordinator.Advance.{Advanced, advance-Advanced}
use setpoint_ci_mirror.Operation.Coordinator.Finish.{
  closed, after_release, close, block_before_apply, finish_prewrite_released, finish_prewrite,
  interrupt_after_write, fail_rollback,
}

-- No lock was granted, or it was given back.
abbrev pub IsUnlocked : Facts → Type 0
IsUnlocked f = (f.granted ≡ false) ⊎ (f.release ≡ true)

module _ (start : Cursor) (run_id : Text) {E : Type 0} (s : Services E) where
  -- A result with an error.
  pub finished-IsEnded :
      (r : LifecycleResult) (c : Cursor) (cause : Cause) (w : World E)
      → IsAt start run_id c w
      → is_succeeded c.state ≡ false
      → IsUnlocked (facts w.calls)
      → IsEnded start run_id (finished r c.state (some cause)) w
  finished-IsEnded r c cause w h bad free = record {
    safe = h.safe;
    state = ap (λ (d : Cursor). d.state) h.place;
    lock = elim free [ inl a ↦ inl a | inr b ↦ inr (inl b) ];
    verdict = sym bad;
  }

  -- A last state was journaled, and the result has an error.
  pub entered-IsEnded :
      (r : LifecycleResult) (c c' : Cursor) (to : State) (cause : Cause) (w w' : World E)
      → Advanced start run_id s c to w (ok c', w')
      → is_succeeded to ≡ false
      → IsUnlocked (facts w.calls)
      → IsEnded start run_id (finished r c'.state (some cause)) w'
  entered-IsEnded r c c' to cause w w' (is_to, at, same) bad free =
      finished-IsEnded r c' cause w' at (ap is_succeeded is_to ∙ bad)
        (subst IsUnlocked (sym same) free)

  -- The last state was refused.
  pub refused-IsEnded :
      (r : LifecycleResult) (c : Cursor) (to : State) (cause e : Cause) (w w' : World E)
      → Advanced start run_id s c to w (err e, w')
      → is_succeeded c.state ≡ false
      → IsUnlocked (facts w.calls)
      → IsEnded start run_id (finished r c.state (some cause)) w'
  refused-IsEnded r c to cause e w w' (at, same, failed') bad free =
      finished-IsEnded r c cause w' at bad (subst IsUnlocked (sym same) free)

  closed-IsEnded :
      (r : LifecycleResult) (c : Cursor) (to : State) (cause : Cause) (w : World E)
      (q : Result Cause Cursor × World E)
      → Advanced start run_id s c to w q
      → is_succeeded to ≡ false
      → is_succeeded c.state ≡ false
      → IsUnlocked (facts w.calls)
      → IsEnded start run_id (closed s r c cause q).0 (closed s r c cause q).1
  closed-IsEnded r c to cause w (ok c', w') a bad bad' free =
      entered-IsEnded r c c' to cause w w' a bad free
  closed-IsEnded r c to cause w (err e, w') a bad bad' free =
      refused-IsEnded r c to (joined cause e) e w w' a bad' free

  pub close-IsEnded :
      (r : LifecycleResult) (c : Cursor) (to : State) (message checkpoint : Text) (cause : Cause)
      (w : World E)
      → IsAt start run_id c w
      → earned to w.calls ≡ true
      → is_succeeded to ≡ false
      → is_succeeded c.state ≡ false
      → IsUnlocked (facts w.calls)
      → IsEnded start run_id
          (close s r c run_id to message checkpoint cause w).0
          (close s r c run_id to message checkpoint cause w).1
  close-IsEnded r c to message checkpoint cause w h ready bad bad' free =
      elim (Bool-cases (can_transition c.state to)) [
        | inl e ↦ rw e (
            closed-IsEnded r c to cause w (advance s background c run_id to message checkpoint w)
              (advance-Advanced start run_id s background c to message checkpoint w h ready) bad
              bad' free)
        | inr e ↦ rw e (finished-IsEnded r c cause w h bad' free)
      ]

  pub block_before_apply-IsEnded :
      (c : Cursor) (r : LifecycleResult) (cause : Cause) (w : World E)
      → IsAt start run_id c w
      → is_succeeded c.state ≡ false
      → IsUnlocked (facts w.calls)
      → IsEnded start run_id
          (block_before_apply s c run_id r cause w).0
          (block_before_apply s c run_id r cause w).1
  unfolding block_before_apply state_beq
  block_before_apply-IsEnded c r cause w h bad free =
      close-IsEnded r c blocked (literal (codes "operation blocked before apply"))
        (literal (codes "blocked_before_apply")) cause w h refl refl bad free

  -- The lock is given back: from here on it is not held.
  pub release-IsAt :
      (c : Cursor) (w : World E)
      → IsAt start run_id c w
      → has is_granted w.calls ≡ true
      → IsAt start run_id c (release_lease s w).1
  unfolding release_lease
  release-IsAt c w h held = record { safe = (held, h.safe); place = h.place }

  pub release-IsUnlocked : (w : World E) → IsUnlocked (facts (release_lease s w).1.calls)
  unfolding release_lease
  release-IsUnlocked w = inr refl

  is_none-wrap_option : (t : Text) (f : Option Cause) → is_none (wrap_option t f) ≡ is_none f
  is_none-wrap_option t none = refl
  is_none-wrap_option t (some e) = refl

  -- Where the release reports no error, it is on record as made.
  pub release-is_released :
      (w : World E)
      → is_none (release_lease s w).0 ≡ true
      → has is_released (release_lease s w).1.calls ≡ true
  unfolding release_lease
  release-is_released w fine =
      let (lease, e) = s.current_lease (s.stop_session w.env) in
      ap (λ b. b || has is_released w.calls)
        (sym (is_none-wrap_option (literal (codes "release operation lock")) (s.release lease e).0)
          ∙ fine)

  prewrite_released-IsEnded :
      (c : Cursor) (r : LifecycleResult) (cause : Cause) (stopped : Bool) (w : World E)
      → IsAt start run_id c w
      → is_succeeded c.state ≡ false
      → IsUnlocked (facts w.calls)
      → IsEnded start run_id
          (finish_prewrite_released s c run_id r cause stopped w).0
          (finish_prewrite_released s c run_id r cause stopped w).1
  unfolding finish_prewrite_released state_beq
  prewrite_released-IsEnded c r cause true w h bad free =
      close-IsEnded r c interrupted (literal (codes "operation interrupted before apply"))
        (literal (codes "interrupted_before_apply")) cause w h refl refl bad free
  prewrite_released-IsEnded c r cause false w h bad free = elim (Bool-cases (is_canceled cause)) [
    | inl e ↦ rw e (
        close-IsEnded r c canceled_before_apply (literal (codes "operation canceled before apply"))
          (literal (codes "canceled_before_apply")) cause w h refl refl bad free)
    | inr e ↦ rw e (block_before_apply-IsEnded c r cause w h bad free)
  ]

  after_release-IsEnded :
      (c : Cursor) (r : LifecycleResult) (cause : Cause) (stopped : Bool) (failure : Option Cause)
      (w : World E)
      → IsAt start run_id c w
      → is_succeeded c.state ≡ false
      → IsUnlocked (facts w.calls)
      → IsEnded start run_id
          (after_release s c run_id r cause stopped (failure, w)).0
          (after_release s c run_id r cause stopped (failure, w)).1
  after_release-IsEnded c r cause stopped none w h bad free =
      prewrite_released-IsEnded c r cause stopped w h bad free
  after_release-IsEnded c r cause stopped (some e) w h bad free =
      prewrite_released-IsEnded c r (joined cause e) true w h bad free

  pub finish_prewrite-IsEnded :
      (c : Cursor) (r : LifecycleResult) (cause : Cause) (stopped : Bool) (w : World E)
      → IsAt start run_id c w
      → is_succeeded c.state ≡ false
      → has is_granted w.calls ≡ true
      → IsEnded start run_id
          (finish_prewrite s c run_id r cause stopped w).0
          (finish_prewrite s c run_id r cause stopped w).1
  unfolding finish_prewrite
  finish_prewrite-IsEnded c r cause stopped w h bad held =
      let (failure, w') = release_lease s w in
      after_release-IsEnded c r cause stopped failure w' (release-IsAt c w h held) bad
        (release-IsUnlocked w)

  pub interrupt_after_write-IsEnded :
      (c : Cursor) (r : LifecycleResult) (cause : Cause) (w : World E)
      → IsAt start run_id c w
      → is_succeeded c.state ≡ false
      → has is_granted w.calls ≡ true
      → IsEnded start run_id
          (interrupt_after_write s c run_id r cause w).0
          (interrupt_after_write s c run_id r cause w).1
  unfolding interrupt_after_write state_beq
  interrupt_after_write-IsEnded c r cause w h bad held =
      let (failure, w') = release_lease s w in
      close-IsEnded r c interrupted
        (literal
          (codes "lock ownership became uncertain after write started; automated writes stopped"))
        (literal (codes "lock_lost_after_write")) (join cause failure) w' (release-IsAt c w h held)
        refl refl bad (release-IsUnlocked w)

  pub fail_rollback-IsEnded :
      (c : Cursor) (r : LifecycleResult) (cause : Cause) (w : World E)
      → IsAt start run_id c w
      → is_succeeded c.state ≡ false
      → has is_granted w.calls ≡ true
      → IsEnded start run_id
          (fail_rollback s c run_id r cause w).0
          (fail_rollback s c run_id r cause w).1
  unfolding fail_rollback state_beq
  fail_rollback-IsEnded c r cause w h bad held =
      let (failure, w') = release_lease s w in
      close-IsEnded r c rollback_failed (literal (codes "automatic rollback could not be verified"))
        (literal (codes "rollback_failed")) (join cause failure) w' (release-IsAt c w h held) refl
        refl bad (release-IsUnlocked w)
