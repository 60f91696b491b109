-- ===== src/Operation/Coordinator/Safety.antt =====
-- app/internal/operation/lifecycle.go: every execution of `ExecuteConfirmed` keeps to the protocol.
use setpoint_ci_mirror.Base.{
  ◌≡◌, refl, sym, ap, subst, inl, inr, false, Option, none, some, List, [], Result, ok, err,
  Bool-cases, ◌==◌,
}
use setpoint_ci_mirror.Base.Text.{text_eq}
use setpoint_ci_mirror.Operation.State.{
  awaiting_confirmation, queued, acquiring_lock, canceled_before_apply, state_beq, state_eq,
}
use setpoint_ci_mirror.Operation.Lock.{LockResource, LockLease, validate_lease_coverage}
use setpoint_ci_mirror.Operation.Coordinator.{
  Cause, joined, caller, background, Cursor, World, Services, PreparedRun, LifecycleResult,
  finished, note, moved, lock_resources, lock_granted, lock_refused, not_awaiting_confirmation,
  wrong_definition,
}
use setpoint_ci_mirror.Operation.Coordinator.Trace.{is_succeeded, Facts, facts, IsAt, IsEnded}
use setpoint_ci_mirror.Operation.Coordinator.Advance.{Advanced, advance-Advanced}
use setpoint_ci_mirror.Operation.Coordinator.Ending.{
  finished-IsEnded, entered-IsEnded, refused-IsEnded, block_before_apply-IsEnded,
}
use setpoint_ci_mirror.Operation.Coordinator.Prewrite.{coverage_checked-IsEnded}
use setpoint_ci_mirror.Operation.Coordinator.Execute.{
  lock_ttl, acquired, with_resources, after_acquiring, after_canceled, check_context, after_queued,
  start_cursor, fresh_result, execute_confirmed,
}

-- Nothing but the journal was called.
record IsIdle (f : Facts) : Type 0 where
  pub granted : f.granted ≡ false
  pub release : f.release ≡ false
  pub apply : f.apply ≡ false
  pub rollback : f.rollback ≡ false

module _ (start : Cursor) (p : PreparedRun) {E : Type 0} (s : Services E) where
  acquired-IsEnded :
      (c : Cursor) (r : LifecycleResult) (resources : List LockResource)
      (q : Result Cause LockLease) (env : E) (w : World E)
      → IsAt start p.run_id c w
      → is_succeeded c.state ≡ false
      → IsIdle (facts w.calls)
      → IsEnded start p.run_id
          (acquired s c p r resources q env w).0
          (acquired s c p r resources q env w).1
  unfolding acquired
  acquired-IsEnded c r resources (err e) env w h bad k =
      block_before_apply-IsEnded start p.run_id s c r _ (note lock_refused env w)
        (record { safe = (tt, h.safe); place = h.place }) bad (inl k.granted)
  acquired-IsEnded c r resources (ok lease) env w h bad k =
      let (now, e) = s.now env in
      coverage_checked-IsEnded start p s c r lease
        (validate_lease_coverage lease p.run_id resources now) (note lock_granted e w)
        (record { safe = (tt, h.safe); place = h.place }) bad
        (record { granted = refl; release = k.release; apply = k.apply; rollback = k.rollback })

  with_resources-IsEnded :
      (c : Cursor) (r : LifecycleResult) (q : Result Cause (List LockResource)) (w : World E)
      → IsAt start p.run_id c w
      → is_succeeded c.state ≡ false
      → IsIdle (facts w.calls)
      → IsEnded start p.run_id (with_resources s c p r q w).0 (with_resources s c p r q w).1
  unfolding with_resources
  with_resources-IsEnded c r (err e) w h bad k =
      block_before_apply-IsEnded start p.run_id s c r e w h bad (inl k.granted)
  with_resources-IsEnded c r (ok resources) w h bad k =
      let (lease, e) =
        s.acquire (record { owner_id = p.run_id; resources = resources; ttl = lock_ttl }) w.env in
      acquired-IsEnded c r resources lease e w h bad k

  after_acquiring-IsEnded :
      (c : Cursor) (r : LifecycleResult) (w : World E) (q : Result Cause Cursor × World E)
      → Advanced start p.run_id s c acquiring_lock w q
      → is_succeeded c.state ≡ false
      → IsIdle (facts w.calls)
      → IsEnded start p.run_id (after_acquiring s c p r q).0 (after_acquiring s c p r q).1
  unfolding state_beq
  after_acquiring-IsEnded c r w (err e, w') a bad k =
      refused-IsEnded start p.run_id s r c acquiring_lock e e w w' a bad (inl k.granted)
  after_acquiring-IsEnded c r w (ok c', w') (is_to, at, same) bad k =
      with_resources-IsEnded c' r (lock_resources p.discovery.targets) w' at (ap is_succeeded is_to)
        (subst IsIdle (sym same) k)

  after_canceled-IsEnded :
      (c : Cursor) (r : LifecycleResult) (cause : Cause) (w : World E)
      (q : Result Cause Cursor × World E)
      → Advanced start p.run_id s c canceled_before_apply w q
      → is_succeeded c.state ≡ false
      → IsIdle (facts w.calls)
      → IsEnded start p.run_id (after_canceled s c r cause q).0 (after_canceled s c r cause q).1
  unfolding state_beq
  after_canceled-IsEnded c r cause w (ok c', w') a bad k =
      entered-IsEnded start p.run_id s r c c' canceled_before_apply cause w w' a refl
        (inl k.granted)
  after_canceled-IsEnded c r cause w (err e, w') a bad k =
      refused-IsEnded start p.run_id s r c canceled_before_apply (joined cause e) e w w' a bad
        (inl k.granted)

  check_context-IsEnded :
      (c : Cursor) (r : LifecycleResult) (failure : Option Cause) (w : World E)
      → IsAt start p.run_id c w
      → is_succeeded c.state ≡ false
      → IsIdle (facts w.calls)
      → IsEnded start p.run_id
          (check_context s c p r failure w).0
          (check_context s c p r failure w).1
  unfolding check_context
  check_context-IsEnded c r (some e) w h bad k =
      after_canceled-IsEnded c r e w _
        (advance-Advanced start p.run_id s background c canceled_before_apply _ _ w h refl) bad k
  check_context-IsEnded c r none w h bad k =
      after_acquiring-IsEnded c r w _
        (advance-Advanced start p.run_id s caller c acquiring_lock _ _ w h refl) bad k

  after_queued-IsEnded :
      (c : Cursor) (r : LifecycleResult) (w : World E) (q : Result Cause Cursor × World E)
      → Advanced start p.run_id s c queued w q
      → is_succeeded c.state ≡ false
      → IsIdle (facts w.calls)
      → IsEnded start p.run_id (after_queued s c p r q).0 (after_queued s c p r q).1
  unfolding state_beq
  after_queued-IsEnded c r w (err e, w') a bad k =
      refused-IsEnded start p.run_id s r c queued e e w w' a bad (inl k.granted)
  after_queued-IsEnded c r w (ok c', w') (is_to, at, same) bad k =
      let (failure, e) = s.context_error w'.env in
      check_context-IsEnded c' r failure (moved e w') (record { safe = at.safe; place = at.place })
        (ap is_succeeded is_to) (subst IsIdle (sym same) k)

-- The world before an execution: nothing was called.
abbrev pub before : {E : Type 0} → E → World E
before env = record { env = env; calls = [] }

module _ {E : Type 0} (s : Services E) (p : PreparedRun) (env : E) where
  idle : IsIdle (facts [])
  idle = record { granted = refl; release = refl; apply = refl; rollback = refl }

  -- A definition or a state that does not fit the prepared run.
  refused_early :
      (cause : Cause)
      → is_succeeded p.state ≡ false
      → IsEnded
          (start_cursor p)
          p.run_id
          (finished (fresh_result p) p.state (some cause))
          (before env)
  refused_early cause bad =
      finished-IsEnded (start_cursor p) p.run_id s (fresh_result p) (start_cursor p) cause
        (before env) (record { safe = tt; place = refl }) bad (inl refl)

  -- Every execution of a prepared run that did not succeed before, whatever the services answer, ends
  -- in order. Each call was allowed when it was made: a journal entry follows the transition table,
  -- has the next sequence number, and is earned by what went before it; `Apply` runs once, in the
  -- journaled state `running` and before any release of the lock; `Rollback` runs once, in the state
  -- `rolling_back` and before any release. The state of the result is the last journaled one, there
  -- is no error exactly in the state `succeeded`, and the release of a granted lock was asked for, unless
  -- the journal refused the entry `rolling_back`.
  pub execute_confirmed-IsEnded :
      is_succeeded p.state ≡ false
      → IsEnded
          (start_cursor p)
          p.run_id
          (execute_confirmed s p (before env)).0
          (execute_confirmed s p (before env)).1
  unfolding execute_confirmed
  execute_confirmed-IsEnded bad =
      let c = start_cursor p in
      elim (Bool-cases (p.state == awaiting_confirmation)) [
        | inr e ↦ rw e (refused_early not_awaiting_confirmation bad)
        | inl e ↦ elim (Bool-cases (s.metadata.id == p.metadata.id)) [
          | inr f ↦ rw (e, f) (refused_early wrong_definition bad)
          | inl f ↦
              rw (e, f)
                (after_queued-IsEnded c p s c (fresh_result p) (before env) _
                  (advance-Advanced c p.run_id s caller c queued _ _ (before env)
                    (record { safe = tt; place = refl }) refl)
                  bad idle)
        ]
      ]
