-- ===== src/Operation/Coordinator/Prepare.antt =====
-- app/internal/operation/lifecycle.go: `Prepare`, which discovers, checks and plans an operation and
-- leaves it to await its confirmation. Each function makes one call and goes on with a function of
-- its answer. The definition is a parameter, so that the test for nil is left out.
pub mod Failure
pub mod Ready
use setpoint_ci_mirror.Base.{
  ℕ, Bool, true, false, not, ◌&&◌, ◌||◌, Option, none, some, List, [], Result, ok, err, is_empty,
  if◌then◌else◌,
}
use setpoint_ci_mirror.Base.Text.{Text, codes, trim_space, is_blank}
use setpoint_ci_mirror.Operation.State.{
  State, unknown, draft, discovering, prechecking, planned, awaiting_confirmation, blocked,
  interrupted, can_transition,
}
use setpoint_ci_mirror.Operation.Definition.{
  RuntimeInput, Discovery, Precheck, Plan, Impact, zero_discovery, zero_precheck, zero_plan,
  zero_impact,
}
use setpoint_ci_mirror.Operation.Metadata.{Metadata, MetadataError, other_risk, validate_metadata}
use setpoint_ci_mirror.Operation.Coordinator.{
  Cause, joined, wrapped, join, literal, caller, background, Cursor, World, Services, PreparedRun,
  is_none, inspected, note, moved, advance, run_id_required, no_targets, no_execution_artifact,
  bad_metadata,
}
use setpoint_ci_mirror.Operation.Coordinator.Execute.{start_cursor}

-- What `Prepare` returns.
pub record Preparation : Type 0 where
  pub run : PreparedRun
  pub error : Option Cause

-- `PreparedRun{}` with a run ID, the metadata, the input and a state.
abbrev pub fresh_run : Text → Metadata → RuntimeInput → State → PreparedRun
fresh_run run_id metadata runtime state = record {
  run_id = run_id;
  metadata = metadata;
  runtime = runtime;
  discovery = zero_discovery;
  precheck = zero_precheck;
  plan = zero_plan;
  impact = zero_impact;
  state = state;
  journal_sequence = 0;
}

-- `PreparedRun{}`
abbrev pub zero_run : PreparedRun
zero_run =
    fresh_run []
      (record {
        id = [];
        category = [];
        name = [];
        version = [];
        description = [];
        risk = other_risk [];
        impact = [];
        supported_systems = [];
        parameters = [];
        secret_requirements = [];
      })
      (record { parameters = []; system = []; targets = []; secret_refs = [] }) (unknown [])

-- `advance` writes to the run.
abbrev pub stand_at : PreparedRun → Cursor → PreparedRun
stand_at p c = record p { state = c.state; journal_sequence = c.sequence }

abbrev pub stopped : PreparedRun → Cause → Preparation
stopped p cause = record { run = p; error = some cause }

-- The plan has an execution artifact that can be stored.
abbrev pub has_artifact : Plan → Bool
has_artifact plan = not (
    is_blank plan.schema_version
    || is_blank plan.execution.schema_version
    || is_empty plan.execution.payload)

module _ {E : Type 0} (s : Services E) where
  -- The last entry before a return: the error of the journal is joined.
  abbrev pub failure_entered :
      PreparedRun → Cause → Result Cause Cursor × World E → Preparation × World E
  failure_entered p cause (ok c, w) = (stopped (stand_at p c) cause, w)
  failure_entered p cause (err e, w) = (stopped p (joined cause e), w)

  abbrev pub fail_with : PreparedRun → Cause → State → Text → Text → World E → Preparation × World E
  fail_with p cause target message checkpoint w =
      let last =
        failure_entered p cause
          (advance s background (start_cursor p) p.run_id target message checkpoint w) in
      if can_transition p.state target then last else (stopped p cause, w)

  abbrev pub fail_after : PreparedRun → Cause → Option Cause → World E → Preparation × World E
  fail_after p cause (some e) w =
      fail_with p cause interrupted (literal (codes "operation preparation interrupted"))
        (literal (codes "prepare_interrupted")) w
  fail_after p cause none w =
      fail_with p cause blocked (literal (codes "operation preparation blocked"))
        (literal (codes "prepare_blocked")) w

  -- `prepareFailure`
  unfoldable pub prepare_failure : PreparedRun → Cause → World E → Preparation × World E
  prepare_failure p cause w =
      let (canceled', e) = s.context_error w.env in fail_after p cause canceled' (moved e w)

  -- The last entry of a preparation that was not refused.
  abbrev pub settled : PreparedRun → Result Cause Cursor × World E → Preparation × World E
  settled p (ok c, w) = (record { run = stand_at p c; error = none }, w)
  settled p (err e, w) = (stopped p e, w)

  unfoldable pub impact_answered :
      PreparedRun → Result Cause Impact → World E → Preparation × World E
  impact_answered p (err e) w = prepare_failure p e w
  impact_answered p (ok impact) w =
      settled (record p { impact = impact })
        (advance s caller (start_cursor p) p.run_id awaiting_confirmation
          (literal (codes "plan and impact await explicit confirmation"))
          (literal (codes "awaiting_confirmation")) w)

  abbrev pub after_planned : PreparedRun → Result Cause Cursor × World E → Preparation × World E
  after_planned p (err e, w) = (stopped p e, w)
  after_planned p (ok c, w) =
      let (impact, e) = s.impact p.runtime p.plan w.env in
      impact_answered (stand_at p c) impact (note inspected e w)

  unfoldable pub plan_answered : PreparedRun → Result Cause Plan → World E → Preparation × World E
  plan_answered p (err e) w = prepare_failure p e w
  plan_answered p (ok plan) w =
      let p' = record p { plan = plan } in
      let next = after_planned p' (
        advance s caller (start_cursor p) p.run_id planned
          (literal (codes "operation plan created")) (literal (codes "planned")) w) in
      if has_artifact plan then next else prepare_failure p' no_execution_artifact w

  unfoldable pub precheck_answered :
      PreparedRun → Result Cause Precheck → World E → Preparation × World E
  precheck_answered p (err e) w = prepare_failure p e w
  precheck_answered p (ok precheck) w =
      let p' = record p { precheck = precheck } in
      let refused = settled p' (
        advance s caller (start_cursor p) p.run_id blocked
          (literal (codes "precheck has blocking findings")) (literal (codes "precheck_blocked"))
          w) in
      let (plan, e) = s.plan p.runtime p.discovery precheck w.env in
      let next = plan_answered p' plan (note inspected e w) in
      if not precheck.passed then refused else next

  abbrev pub after_prechecking : PreparedRun → Result Cause Cursor × World E → Preparation × World E
  after_prechecking p (err e, w) = (stopped p e, w)
  after_prechecking p (ok c, w) =
      let (precheck, e) = s.precheck p.runtime p.discovery w.env in
      precheck_answered (stand_at p c) precheck (note inspected e w)

  unfoldable pub discovery_answered :
      PreparedRun → Result Cause Discovery → World E → Preparation × World E
  discovery_answered p (err e) w = prepare_failure p e w
  discovery_answered p (ok d) w =
      let p' = record p { discovery = d } in
      let refused = settled p' (
        advance s caller (start_cursor p) p.run_id blocked
          (literal (codes "operation is not applicable")) (literal (codes "discover_blocked")) w) in
      let p'' = record p' { runtime = record p.runtime { targets = d.targets } } in
      let next = after_prechecking p'' (
        advance s caller (start_cursor p) p.run_id prechecking
          (literal (codes "precheck discovered targets")) (literal (codes "precheck")) w) in
      if not d.applicable
      then refused
      else if is_empty d.targets
      then prepare_failure p' no_targets w
      else next

  abbrev pub after_discovering : PreparedRun → Result Cause Cursor × World E → Preparation × World E
  after_discovering p (err e, w) = (stopped p e, w)
  after_discovering p (ok c, w) =
      let (d, e) = s.discover p.runtime w.env in
      discovery_answered (stand_at p c) d (note inspected e w)

  abbrev pub metadata_checked :
      Text → RuntimeInput → Result MetadataError Unit → World E → Preparation × World E
  metadata_checked run_id runtime (err e) w = (
    stopped zero_run (wrapped (literal (codes "validate operation metadata")) (bad_metadata e)),
    w,
  )
  metadata_checked run_id runtime (ok u) w =
      let p = fresh_run run_id s.metadata runtime draft in
      after_discovering p (
        advance s caller (start_cursor p) run_id discovering
          (literal (codes "discover operation targets")) (literal (codes "discover")) w)

  -- `Prepare`
  unfoldable pub prepare : Text → RuntimeInput → World E → Preparation × World E
  prepare text runtime w =
      let run_id = trim_space text in
      let next = metadata_checked run_id runtime (validate_metadata s.metadata) w in
      if is_empty run_id then (stopped zero_run run_id_required, w) else next
