-- ===== src/Operation/Planning.antt =====
-- app/internal/operation/planning.go: the planning of an operation, from its discovery to a plan that
-- waits for a confirmation. The definition is a record of functions, whose errors say whether the context
-- was canceled or timed out; JSON and SHA-256 are functions of the record `Digests`; the two readings
-- of the clock are arguments.
pub mod Endings
pub mod Outcome
use setpoint_ci_mirror.Base.{
  ℕ, Bool, true, false, not, ◌&&◌, ◌||◌, Option, none, some, List, [], Result, ok, err, ◌>>=◌, ◌>>◌,
  require, is_empty, if◌then◌else◌,
}
use setpoint_ci_mirror.Base.Text.{Text, codes}
use setpoint_ci_mirror.Operation.State.{
  State, discovering, prechecking, planned, awaiting_confirmation, blocked, interrupted,
}
use setpoint_ci_mirror.Operation.Target.{Target}
use setpoint_ci_mirror.Operation.Metadata.{Metadata, MetadataError, validate_metadata}
use setpoint_ci_mirror.Operation.Definition.{
  SecretRef, RuntimeInput, Discovery, Precheck, Plan, Impact,
}

-- `Block`
pub record PlanningBlock : Type 0 where
  pub code : Text
  pub message : Text
  pub safe_next : Text
  pub manual_review : Bool

pub record PlanningFailure : Type 0 where
  pub code : Text
  pub message : Text

pub record PlanningResult : Type 0 where
  pub operation_id : Text
  pub operation_version : Text
  pub capability_digest : Text
  pub state : State
  pub checkpoint : Text
  pub started_at : ℕ
  pub completed_at : ℕ
  pub discovery : Option Discovery
  pub precheck : Option Precheck
  pub plan : Option Plan
  pub impact : Option Impact
  pub plan_digest : Text
  pub block : Option PlanningBlock
  pub error : Option PlanningFailure

-- An error: its text, and whether it wraps `context.Canceled` or `context.DeadlineExceeded`
pub record PlanningError : Type 0 where
  pub message : Text
  pub stopped : Bool

abbrev pub plain : Text → PlanningError
plain text = record { message = text; stopped = false }

-- `PlanningDefinition`
pub record PlanningDefinition : Type 0 where
  pub metadata : Metadata
  pub discover : RuntimeInput → Result PlanningError Discovery
  pub precheck : RuntimeInput → Discovery → Result PlanningError Precheck
  pub plan : RuntimeInput → Discovery → Precheck → Result PlanningError Plan
  pub impact : RuntimeInput → Plan → Result PlanningError Impact

-- `json.Valid`, the JSON encodings with their SHA-256, and the texts of the errors of a validation
pub record Digests : Type 0 where
  pub refused : MetadataError → PlanningError
  pub described : Metadata → Result PlanningError Text
  pub json_valid : Text → Bool
  pub encoded :
      Text → List Target → Text → List SecretRef → Plan → Impact → Result PlanningError Text

abbrev pub described_as : Digests → Metadata → Result MetadataError Unit → Result PlanningError Text
described_as d m (err e) = err (d.refused e)
described_as d m (ok u) = d.described m

-- `CapabilityDigest`
unfoldable pub capability_digest_of : Digests → Metadata → Result PlanningError Text
capability_digest_of d m = described_as d m (validate_metadata m)

-- `PlanDigest`
unfoldable pub plan_digest_of :
    Digests → Text → List Target → Text → List SecretRef → Plan → Impact → Result PlanningError Text
plan_digest_of d capability targets parameters refs plan impact = do
  require (not (is_empty capability)) (plain (codes "capability digest is required"))
  require (not (is_empty targets)) (plain (codes "frozen operation targets are required"))
  require (not (is_empty parameters || not (d.json_valid parameters)))
      (plain (codes "frozen operation parameters must be valid JSON"))
  d.encoded capability targets parameters refs plan impact

-- `finishFailure`
abbrev pub finish_failure : Text → PlanningError → ℕ → PlanningResult → PlanningResult
finish_failure code e at r = record r {
  completed_at = at;
  checkpoint = code;
  error = some (record { code = code; message = e.message });
  state = if e.stopped then interrupted else blocked;
  block =
      if e.stopped
      then r.block
      else some (record {
        code = code;
        message = e.message;
        safe_next = codes "inspect_the_failure_and_create_a_new_run";
        manual_review = true;
      });
}

-- An outcome that the definition reports itself
abbrev pub finish_blocked : Text → Text → Text → Text → ℕ → PlanningResult → PlanningResult
finish_blocked checkpoint code message next at r = record r {
  state = blocked;
  checkpoint = checkpoint;
  block = some (record { code = code; message = message; safe_next = next; manual_review = true });
  completed_at = at;
}

abbrev pub plan_ready : Plan → Impact → Text → ℕ → PlanningResult → PlanningResult
plan_ready plan impact digest at r = record r {
  plan = some plan;
  impact = some impact;
  plan_digest = digest;
  state = awaiting_confirmation;
  checkpoint = codes "plan_ready";
  completed_at = at;
}

module _ (d : Digests) (p : PlanningDefinition) (runtime : RuntimeInput) (at : ℕ) where
  abbrev pub digest_given :
      PlanningResult → Plan → Impact → Result PlanningError Text → PlanningResult
  digest_given r plan impact (err e) = finish_failure (codes "operation_plan_digest_failed") e at r
  digest_given r plan impact (ok digest) = plan_ready plan impact digest at r

  abbrev pub impact_given : PlanningResult → Plan → Result PlanningError Impact → PlanningResult
  impact_given r plan (err e) = finish_failure (codes "operation_impact_failed") e at r
  impact_given r plan (ok impact) = digest_given r plan impact (
      plan_digest_of d r.capability_digest runtime.targets runtime.parameters runtime.secret_refs
        plan impact)

  abbrev pub plan_given : PlanningResult → Result PlanningError Plan → PlanningResult
  plan_given r (err e) = finish_failure (codes "operation_plan_failed") e at r
  plan_given r (ok plan) = impact_given r plan (p.impact runtime plan)

  abbrev pub precheck_given :
      PlanningResult → Discovery → Result PlanningError Precheck → PlanningResult
  precheck_given r discovery (err e) = finish_failure (codes "operation_precheck_failed") e at r
  precheck_given r discovery (ok precheck) =
      let next =
        plan_given (record r { precheck = some precheck }) (p.plan runtime discovery precheck) in
      if not precheck.passed
      then finish_blocked (codes "precheck_blocked") (codes "operation_precheck_blocked")
          precheck.summary (codes "resolve_blocking_findings_and_create_a_new_run") at
          (record r { precheck = some precheck })
      else next

  abbrev pub discovery_given : PlanningResult → Result PlanningError Discovery → PlanningResult
  discovery_given r (err e) = finish_failure (codes "operation_discovery_failed") e at r
  discovery_given r (ok discovery) =
      let found : PlanningResult = record r { discovery = some discovery } in
      let checking : PlanningResult = record found {
        state = prechecking;
        checkpoint = codes "prechecking";
      } in
      let next = precheck_given checking discovery (p.precheck runtime discovery) in
      if not discovery.applicable
      then finish_blocked (codes "discovery_blocked") (codes "operation_not_applicable")
          discovery.summary (codes "select_an_applicable_target") at found
      else if is_empty discovery.targets
      then finish_failure (codes "operation_discovery_empty")
          (plain (codes "applicable operation discovery returned no physical targets")) at found
      else next

  abbrev pub text_of : Result PlanningError Text → Text
  text_of (ok t) = t
  text_of (err e) = []

  abbrev pub digested : PlanningResult → Result PlanningError Text → PlanningResult
  digested r (err e) = finish_failure (codes "operation_contract_invalid") e at r
  digested r (ok digest) = discovery_given r (p.discover runtime)

  -- The result before the first step
  abbrev pub planning_start : ℕ → PlanningResult
  planning_start started = record {
    operation_id = p.metadata.id;
    operation_version = p.metadata.version;
    capability_digest = text_of (capability_digest_of d p.metadata);
    state = discovering;
    checkpoint = codes "discovering";
    started_at = started;
    completed_at = 0;
    discovery = none;
    precheck = none;
    plan = none;
    impact = none;
    plan_digest = [];
    block = none;
    error = none;
  }

  -- `ExecutePlanning`; `started` and `at` are the readings of the clock.
  unfoldable pub execute_planning : ℕ → PlanningResult
  unfolding plan_digest_of
  execute_planning started = digested (planning_start started) (capability_digest_of d p.metadata)
