-- ===== src/Operation/Coordinator/Prepare/Failure.antt =====
-- app/internal/operation/lifecycle.go: how `Prepare` leaves a run that it gives up.
use setpoint_ci_mirror.Base.{
  ◌≡◌, ◌≢◌, refl, sym, ◌∙◌, Bool, true, not, ◌&&◌, Option, none, some, [], Result, ok, err,
  is_empty, Bool-cases, inl, inr,
}
use setpoint_ci_mirror.Base.Text.{Text}
use setpoint_ci_mirror.Operation.State.{
  State, draft, awaiting_confirmation, blocked, interrupted, can_transition,
}
use setpoint_ci_mirror.Operation.Coordinator.{
  Cause, joined, background, Cursor, World, Services, PreparedRun, moved, advance,
}
use setpoint_ci_mirror.Operation.Coordinator.Trace.{cursor_of, IsSafe, facts, IsAt}
use setpoint_ci_mirror.Operation.Coordinator.Advance.{Advanced, advance-Advanced}
use setpoint_ci_mirror.Operation.Coordinator.Execute.{start_cursor}
use setpoint_ci_mirror.Operation.Coordinator.Prepare.{
  Preparation, stand_at, stopped, has_artifact, failure_entered, fail_with, fail_after,
  prepare_failure,
}

-- What `ExecuteConfirmed` relies on: targets to lock, a passed precheck and a plan that can be stored.
abbrev pub is_ready : PreparedRun → Bool
is_ready p =
    p.discovery.applicable
    && not (is_empty p.discovery.targets)
    && p.precheck.passed
    && has_artifact p.plan

-- The cursor before the first entry of a run.
abbrev pub first_cursor : Cursor
first_cursor = record { state = draft; sequence = 0 }

module _ (run_id : Text) {E : Type 0} where
  -- The journal of the preparation is in order, nothing else was asked of the services, and a run
  -- that awaits its confirmation is ready and has no error.
  pub record IsPrepared (q : Preparation) (w : World E) : Type 0 where
    pub safe : IsSafe first_cursor run_id w.calls
    pub untouched : facts w.calls ≡ facts []
    pub ready :
        q.run.state ≡ awaiting_confirmation
        → (cursor_of first_cursor w.calls ≡ start_cursor q.run)
          × (q.run.run_id ≡ run_id)
          × (is_ready q.run ≡ true)
          × (q.error ≡ none)

module _ {E : Type 0} where
  -- The run stands where its journal ends, and nothing but the journal was called.
  pub record IsPlaced (p : PreparedRun) (w : World E) : Type 0 where
    pub at : IsAt first_cursor p.run_id (start_cursor p) w
    pub untouched : facts w.calls ≡ facts []

  placed :
      (p : PreparedRun) (c : Cursor) (w : World E)
      → IsAt first_cursor p.run_id c w
      → facts w.calls ≡ facts []
      → IsPlaced (stand_at p c) w
  placed p c w at same = record { at = at; untouched = same }

module _ {E : Type 0} (s : Services E) where
  pub stopped-IsPrepared :
      (p : PreparedRun) (cause : Cause) (w : World E)
      → IsSafe first_cursor p.run_id w.calls
      → facts w.calls ≡ facts []
      → p.state ≢ awaiting_confirmation
      → IsPrepared p.run_id (stopped p cause) w
  stopped-IsPrepared p cause w safe same other = record {
    safe = safe;
    untouched = same;
    ready = λ e. absurd (other e);
  }

  failure_entered-IsPrepared :
      (p : PreparedRun) (cause : Cause) (target : State) (w : World E)
      (q : Result Cause Cursor × World E)
      → Advanced first_cursor p.run_id s (start_cursor p) target w q
      → facts w.calls ≡ facts []
      → p.state ≢ awaiting_confirmation
      → target ≢ awaiting_confirmation
      → IsPrepared p.run_id (failure_entered s p cause q).0 (failure_entered s p cause q).1
  failure_entered-IsPrepared p cause target w (ok c, w') (is_to, at, same) none' other other' =
      stopped-IsPrepared (stand_at p c) cause w' at.safe (same ∙ none')
        (λ e. other' (sym is_to ∙ e))
  failure_entered-IsPrepared p cause target w (err e, w') (at, same, refused) none' other other' =
      stopped-IsPrepared p (joined cause e) w' at.safe (same ∙ none') other

  fail_with-IsPrepared :
      (p : PreparedRun) (cause : Cause) (target : State) (message checkpoint : Text) (w : World E)
      → IsPlaced p w
      → target ≢ awaiting_confirmation
      → p.state ≢ awaiting_confirmation
      → Advanced first_cursor p.run_id s
          (start_cursor p)
          target
          w
          (advance s background (start_cursor p) p.run_id target message checkpoint w)
      → IsPrepared p.run_id
          (fail_with s p cause target message checkpoint w).0
          (fail_with s p cause target message checkpoint w).1
  fail_with-IsPrepared p cause target message checkpoint w h other' other a =
      elim (Bool-cases (can_transition p.state target)) [
        | inl e ↦ rw e (failure_entered-IsPrepared p cause target w _ a h.untouched other other')
        | inr e ↦ rw e (stopped-IsPrepared p cause w h.at.safe h.untouched other)
      ]

  fail_after-IsPrepared :
      (p : PreparedRun) (cause : Cause) (canceled' : Option Cause) (w : World E)
      → IsPlaced p w
      → p.state ≢ awaiting_confirmation
      → IsPrepared p.run_id
          (fail_after s p cause canceled' w).0
          (fail_after s p cause canceled' w).1
  fail_after-IsPrepared p cause (some e) w h other =
      fail_with-IsPrepared p cause interrupted _ _ w h (λ e. cc) other
        (advance-Advanced first_cursor p.run_id s background (start_cursor p) interrupted _ _ w h.at
          refl)
  fail_after-IsPrepared p cause none w h other =
      fail_with-IsPrepared p cause blocked _ _ w h (λ e. cc) other
        (advance-Advanced first_cursor p.run_id s background (start_cursor p) blocked _ _ w h.at
          refl)

  pub prepare_failure-IsPrepared :
      (p : PreparedRun) (cause : Cause) (w : World E)
      → IsPlaced p w
      → p.state ≢ awaiting_confirmation
      → IsPrepared p.run_id (prepare_failure s p cause w).0 (prepare_failure s p cause w).1
  unfolding prepare_failure
  prepare_failure-IsPrepared p cause w h other =
      let (canceled', e) = s.context_error w.env in
      fail_after-IsPrepared p cause canceled' (moved e w)
        (record { at = record { safe = h.at.safe; place = h.at.place }; untouched = h.untouched })
        other
