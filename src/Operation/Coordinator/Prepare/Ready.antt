-- ===== src/Operation/Coordinator/Prepare/Ready.antt =====
-- app/internal/operation/lifecycle.go: a run that `Prepare` leaves to await its confirmation is ready
-- for `ExecuteConfirmed`, and nothing was locked or written on the way.
use setpoint_ci_mirror.Base.{
  ◌≡◌, ◌≢◌, refl, sym, ◌∙◌, true, false, not, [], Result, ok, err, is_empty, if_holds, Bool-cases,
  inl, inr, arith,
}
use setpoint_ci_mirror.Base.Text.{Text, trim_space}
use setpoint_ci_mirror.Operation.State.{
  State, draft, discovering, prechecking, planned, awaiting_confirmation, blocked,
}
use setpoint_ci_mirror.Operation.Definition.{RuntimeInput, Discovery, Precheck, Plan, Impact}
use setpoint_ci_mirror.Operation.Metadata.{MetadataError, validate_metadata}
use setpoint_ci_mirror.Operation.Coordinator.{
  Cause, caller, Cursor, World, Services, PreparedRun, inspected, note, no_targets,
  no_execution_artifact,
}
use setpoint_ci_mirror.Operation.Coordinator.Trace.{facts}
use setpoint_ci_mirror.Operation.Coordinator.Advance.{Advanced, advance-Advanced}
use setpoint_ci_mirror.Operation.Coordinator.Execute.{start_cursor}
use setpoint_ci_mirror.Operation.Coordinator.Safety.{before}
use setpoint_ci_mirror.Operation.Coordinator.Prepare.{
  Preparation, zero_run, fresh_run, stand_at, stopped, has_artifact, settled, impact_answered,
  after_planned, plan_answered, precheck_answered, after_prechecking, discovery_answered,
  after_discovering, metadata_checked, prepare,
}
use setpoint_ci_mirror.Operation.Coordinator.Prepare.Failure.{
  is_ready, first_cursor, IsPrepared, IsPlaced, stopped-IsPrepared, prepare_failure-IsPrepared,
}

module _ {E : Type 0} (s : Services E) where
  -- The last entry of a preparation, where the run is ready if it is `awaiting_confirmation`.
  settled-IsPrepared :
      (p : PreparedRun) (target : State) (w : World E) (q : Result Cause Cursor × World E)
      → Advanced first_cursor p.run_id s (start_cursor p) target w q
      → facts w.calls ≡ facts []
      → p.state ≢ awaiting_confirmation
      → (target ≡ awaiting_confirmation → is_ready p ≡ true)
      → IsPrepared p.run_id (settled s p q).0 (settled s p q).1
  settled-IsPrepared p target w (ok c, w') (is_to, at, same) none' other ready = record {
    safe = at.safe;
    untouched = same ∙ none';
    ready = λ e. (at.place, refl, ready (sym is_to ∙ e), refl);
  }
  settled-IsPrepared p target w (err e, w') (at, same, refused) none' other ready =
      stopped-IsPrepared s p e w' at.safe (same ∙ none') other

  impact_answered-IsPrepared :
      (p : PreparedRun) (q : Result Cause Impact) (w : World E)
      → IsPlaced p w
      → p.state ≢ awaiting_confirmation
      → is_ready p ≡ true
      → IsPrepared p.run_id (impact_answered s p q w).0 (impact_answered s p q w).1
  unfolding impact_answered
  impact_answered-IsPrepared p (err e) w h other ready = prepare_failure-IsPrepared s p e w h other
  impact_answered-IsPrepared p (ok impact) w h other ready =
      settled-IsPrepared (record p { impact = impact }) awaiting_confirmation w _
        (advance-Advanced first_cursor p.run_id s caller (start_cursor p) awaiting_confirmation _ _
          w h.at refl)
        h.untouched other (λ t. ready)

  after_planned-IsPrepared :
      (p : PreparedRun) (w : World E) (q : Result Cause Cursor × World E)
      → Advanced first_cursor p.run_id s (start_cursor p) planned w q
      → facts w.calls ≡ facts []
      → p.state ≢ awaiting_confirmation
      → is_ready p ≡ true
      → IsPrepared p.run_id (after_planned s p q).0 (after_planned s p q).1
  after_planned-IsPrepared p w (err e, w') (at, same, refused) none' other ready =
      stopped-IsPrepared s p e w' at.safe (same ∙ none') other
  after_planned-IsPrepared p w (ok c, w') (is_to, at, same) none' other ready =
      let (impact, e) = s.impact p.runtime p.plan w'.env in
      impact_answered-IsPrepared (stand_at p c) impact (note inspected e w')
        (record {
          at = record { safe = (tt, at.safe); place = at.place };
          untouched = same ∙ none';
        })
        (λ e. cc) ready

  plan_answered-IsPrepared :
      (p : PreparedRun) (q : Result Cause Plan) (w : World E)
      → IsPlaced p w
      → p.state ≢ awaiting_confirmation
      → p.discovery.applicable ≡ true
      → is_empty p.discovery.targets ≡ false
      → p.precheck.passed ≡ true
      → IsPrepared p.run_id (plan_answered s p q w).0 (plan_answered s p q w).1
  unfolding plan_answered
  plan_answered-IsPrepared p (err e) w h other fits some' passed =
      prepare_failure-IsPrepared s p e w h other
  plan_answered-IsPrepared p (ok plan) w h other fits some' passed =
      let p' = record p { plan = plan } in
      let h' : IsPlaced p' w = record {
        at = record { safe = h.at.safe; place = h.at.place };
        untouched = h.untouched;
      } in
      elim (Bool-cases (has_artifact plan)) [
        | inl e ↦ rw e (
            after_planned-IsPrepared p' w _
              (advance-Advanced first_cursor p.run_id s caller (start_cursor p) planned _ _ w h.at
                refl)
              h.untouched other (ground arith))
        | inr e ↦ rw e (prepare_failure-IsPrepared s p' no_execution_artifact w h' other)
      ]

  precheck_answered-IsPrepared :
      (p : PreparedRun) (q : Result Cause Precheck) (w : World E)
      → IsPlaced p w
      → p.state ≢ awaiting_confirmation
      → p.discovery.applicable ≡ true
      → is_empty p.discovery.targets ≡ false
      → IsPrepared p.run_id (precheck_answered s p q w).0 (precheck_answered s p q w).1
  unfolding precheck_answered
  precheck_answered-IsPrepared p (err e) w h other fits some' =
      prepare_failure-IsPrepared s p e w h other
  precheck_answered-IsPrepared p (ok precheck) w h other fits some' =
      let p' = record p { precheck = precheck } in
      let (plan, e) = s.plan p.runtime p.discovery precheck w.env in
      if_holds (λ (q : Preparation × World E). IsPrepared p.run_id q.0 q.1) (not precheck.passed) _
        _
        (λ f.
          settled-IsPrepared p' blocked w _
            (advance-Advanced first_cursor p.run_id s caller (start_cursor p) blocked _ _ w h.at
              refl)
            h.untouched other (λ t. absurd (cc)))
        (λ f.
          plan_answered-IsPrepared p' plan (note inspected e w)
            (record {
              at = record { safe = (tt, h.at.safe); place = h.at.place };
              untouched = h.untouched;
            })
            other fits some' (ground arith))

  after_prechecking-IsPrepared :
      (p : PreparedRun) (w : World E) (q : Result Cause Cursor × World E)
      → Advanced first_cursor p.run_id s (start_cursor p) prechecking w q
      → facts w.calls ≡ facts []
      → p.state ≢ awaiting_confirmation
      → p.discovery.applicable ≡ true
      → is_empty p.discovery.targets ≡ false
      → IsPrepared p.run_id (after_prechecking s p q).0 (after_prechecking s p q).1
  after_prechecking-IsPrepared p w (err e, w') (at, same, refused) none' other fits some' =
      stopped-IsPrepared s p e w' at.safe (same ∙ none') other
  after_prechecking-IsPrepared p w (ok c, w') (is_to, at, same) none' other fits some' =
      let (precheck, e) = s.precheck p.runtime p.discovery w'.env in
      precheck_answered-IsPrepared (stand_at p c) precheck (note inspected e w')
        (record {
          at = record { safe = (tt, at.safe); place = at.place };
          untouched = same ∙ none';
        })
        (λ e. cc) fits some'

  discovery_answered-IsPrepared :
      (p : PreparedRun) (q : Result Cause Discovery) (w : World E)
      → IsPlaced p w
      → p.state ≢ awaiting_confirmation
      → IsPrepared p.run_id (discovery_answered s p q w).0 (discovery_answered s p q w).1
  unfolding discovery_answered
  discovery_answered-IsPrepared p (err e) w h other = prepare_failure-IsPrepared s p e w h other
  discovery_answered-IsPrepared p (ok d) w h other =
      let p' = record p { discovery = d } in
      let p'' = record p' { runtime = record p.runtime { targets = d.targets } } in
      let h' : IsPlaced p' w = record {
        at = record { safe = h.at.safe; place = h.at.place };
        untouched = h.untouched;
      } in
      if_holds (λ (q : Preparation × World E). IsPrepared p.run_id q.0 q.1) (not d.applicable) _ _
        (λ f.
          settled-IsPrepared p' blocked w _
            (advance-Advanced first_cursor p.run_id s caller (start_cursor p) blocked _ _ w h.at
              refl)
            h.untouched other (λ t. absurd (cc)))
        (λ f.
          if_holds (λ (q : Preparation × World E). IsPrepared p.run_id q.0 q.1) (is_empty d.targets)
            _ _ (λ g. prepare_failure-IsPrepared s p' no_targets w h' other)
            (λ g.
              after_prechecking-IsPrepared p'' w _
                (advance-Advanced first_cursor p.run_id s caller (start_cursor p) prechecking _ _ w
                  h.at refl)
                h.untouched other (ground arith) g))

  after_discovering-IsPrepared :
      (p : PreparedRun) (w : World E) (q : Result Cause Cursor × World E)
      → Advanced first_cursor p.run_id s (start_cursor p) discovering w q
      → facts w.calls ≡ facts []
      → p.state ≢ awaiting_confirmation
      → IsPrepared p.run_id (after_discovering s p q).0 (after_discovering s p q).1
  after_discovering-IsPrepared p w (err e, w') (at, same, refused) none' other =
      stopped-IsPrepared s p e w' at.safe (same ∙ none') other
  after_discovering-IsPrepared p w (ok c, w') (is_to, at, same) none' other =
      let (d, e) = s.discover p.runtime w'.env in
      discovery_answered-IsPrepared (stand_at p c) d (note inspected e w')
        (record {
          at = record { safe = (tt, at.safe); place = at.place };
          untouched = same ∙ none';
        })
        (λ e. cc)

  nothing_called :
      (run_id : Text) (cause : Cause) (env : E)
      → IsPrepared run_id (stopped zero_run cause) (before env)
  nothing_called run_id cause env = record { safe = tt; untouched = refl; ready = λ e. absurd (cc) }

  metadata_checked-IsPrepared :
      (run_id : Text) (runtime : RuntimeInput) (q : Result MetadataError Unit) (env : E)
      → IsPrepared run_id
          (metadata_checked s run_id runtime q (before env)).0
          (metadata_checked s run_id runtime q (before env)).1
  metadata_checked-IsPrepared run_id runtime (err e) env = nothing_called run_id _ env
  metadata_checked-IsPrepared run_id runtime (ok u) env =
      let p = fresh_run run_id s.metadata runtime draft in
      after_discovering-IsPrepared p (before env) _
        (advance-Advanced first_cursor run_id s caller (start_cursor p) discovering _ _ (before env)
          (record { safe = tt; place = refl }) refl)
        refl (λ e. cc)

  -- A preparation journals its states in order from `draft`, and asks for no lock and writes nothing.
  -- A run that it leaves in `awaiting_confirmation` has no error, has the trimmed run ID and stands
  -- where its journal ends; it is applicable, has targets to lock, has passed its precheck and has a
  -- plan with an execution artifact.
  pub prepare-IsPrepared :
      (text : Text) (runtime : RuntimeInput) (env : E)
      → IsPrepared
          (trim_space text)
          (prepare s text runtime (before env)).0
          (prepare s text runtime (before env)).1
  unfolding prepare
  prepare-IsPrepared text runtime env = elim (Bool-cases (is_empty (trim_space text))) [
    | inl e ↦ rw e (nothing_called (trim_space text) _ env)
    | inr e ↦
        rw e
          (metadata_checked-IsPrepared (trim_space text) runtime (validate_metadata s.metadata) env)
  ]
