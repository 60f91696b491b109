-- ===== src/Task/Execution.antt =====
-- app/internal/task/operation_execution_contract.go: the frozen contract of one action of an operation,
-- which the server gives to an agent. JSON and SHA-256 are functions of the record `Encoding`; the caller's
-- list of participants, which the source trims and sorts in place, is a value here.
pub mod Accepted
use setpoint_ci_mirror.Base.{
  ℕ, zero, suc, Bool, true, false, not, ◌&&◌, ◌||◌, Option, none, some, List, [], ◌∷◌, map, Result,
  ok, err, ◌>>=◌, ◌>>◌, require, is_empty, contains, length, get_elem?, leb, eqb, all,
  if◌then◌else◌, ◌==◌,
}
use setpoint_ci_mirror.Base.Int.{ℤ, pos, negsuc}
use setpoint_ci_mirror.Base.Text.{Text, codes, text_eq, text_lt, trim_space, is_blank}
use setpoint_ci_mirror.Base.Text.Sort.{sort_by}
use setpoint_ci_mirror.Operation.Metadata.{is_id_character}
use setpoint_ci_mirror.Operation.Target.{Target, TargetError, validate_target}
use setpoint_ci_mirror.Operation.Definition.{PlanStep, Plan, Impact, ApplyResult, RollbackResult}
use setpoint_ci_mirror.Operation.RestorePoint.{RestorePoint}
use setpoint_ci_mirror.OperationRun.Stages.{StageError, validate_execution_stage}

-- `OperationAction` is a string in the source; `other_action` is any string that is not a constant.
pub data Action : Type 0 where
  create_restore_point apply verify rollback verify_rollback : Action
  other_action : Text → Action

-- `ValidOperationAction`
abbrev pub valid_action : Action → Bool
valid_action (other_action t) = false
valid_action _ = true

-- `OperationExecutionContract`
pub record ExecutionContract : Type 0 where
  pub schema_version : ℤ
  pub operation_id : Text
  pub run_id : Text
  pub action : Action
  pub plan_digest : Text
  pub participant_node_ids : List Text
  pub stage_index : ℤ
  pub stage : PlanStep
  pub targets : List Target
  pub plan : Plan
  pub impact : Option Impact
  pub restore_point : Option RestorePoint
  pub apply : Option ApplyResult
  pub rollback : Option RollbackResult

pub data ExecutionError : Type 0 where
  unsupported_schema : ℤ → ExecutionError
  unsupported_action : Action → ExecutionError
  bad_identity plan_digest_required targets_required bad_participant not_canonical : ExecutionError
  stage_identity_required single_stage_only outside_plan stage_differs executor_not_frozen :
      ExecutionError
  plan_required outputs_not_allowed restore_point_required apply_required rollback_required :
      ExecutionError
  digest_mismatch : ExecutionError
  stage_refused : StageError → ExecutionError
  target_refused : TargetError → ExecutionError
  encoding_failed : Text → ExecutionError

-- `json.Valid`, the JSON encoding with its SHA-256 in hexadecimal, and `strings.EqualFold`
pub record Encoding : Type 0 where
  pub json_valid : Text → Bool
  pub digest : ExecutionContract → Result Text Text
  pub equal_fold : Text → Text → Bool

-- `OperationExecutionContractVersion`
abbrev pub contract_version : ℤ
contract_version = pos 2

-- `validContractIdentifier`, whose characters are those of `validID`
unfoldable pub valid_contract_identifier : Text → Bool
valid_contract_identifier id = not (is_empty id) && leb (length id) 128 && all is_id_character id

-- The loop over the participants; `before` is the participant before them.
abbrev pub follows_participant : Option Text → Text → Bool
follows_participant none p = true
follows_participant (some before) p = text_lt before p

unfoldable pub check_participants : Option Text → List Text → Result ExecutionError Unit
unfolding valid_contract_identifier
check_participants before [] = ok tt
check_participants before (p ∷ ps) = do
  require (valid_contract_identifier p) bad_participant
  require (follows_participant before p) not_canonical
  check_participants (some p) ps

-- The stage of a contract among the steps of its plan
abbrev pub planned_stage : PlanStep → Option PlanStep → Result ExecutionError Unit
planned_stage stage none = err outside_plan
planned_stage stage (some planned) =
    require (planned.id == stage.id && planned.executor_node_id == stage.executor_node_id)
      stage_differs

abbrev pub step_at : ℤ → List PlanStep → Option PlanStep
step_at (pos n) steps = get_elem? steps n
step_at (negsuc n) steps = none

abbrev pub is_first : ℤ → Bool
is_first (pos n) = eqb n 0
is_first (negsuc n) = false

abbrev pub check_index : ExecutionContract → List Text → Result ExecutionError Unit
check_index c (p ∷ []) = require (is_first c.stage_index) single_stage_only
check_index c ps = planned_stage c.stage (step_at c.stage_index c.plan.steps)

abbrev pub stage_checked : Result StageError Unit → Result ExecutionError Unit
stage_checked (ok u) = ok u
stage_checked (err e) = err (stage_refused e)

-- The guards of a contract with participants
unfoldable pub check_staged : ExecutionContract → Result ExecutionError Unit
unfolding check_participants
check_staged c = do
  check_participants none c.participant_node_ids
  require (not (is_empty c.stage.id || is_empty c.stage.executor_node_id)) stage_identity_required
  check_index c c.participant_node_ids
  require (contains c.stage.executor_node_id c.participant_node_ids) executor_not_frozen
  stage_checked (validate_execution_stage c.stage c.participant_node_ids)

abbrev pub target_checked : Result TargetError Unit → Result ExecutionError Unit
target_checked (ok u) = ok u
target_checked (err e) = err (target_refused e)

unfoldable pub check_targets : List Target → Result ExecutionError Unit
check_targets [] = ok tt
check_targets (t ∷ ts) = target_checked (validate_target t) >> check_targets ts

abbrev pub is_given : {A : Type 0} → Option A → Bool
is_given none = false
is_given (some a) = true

-- What an action takes over from the actions before it
abbrev pub check_inputs : Action → ExecutionContract → Result ExecutionError Unit
check_inputs create_restore_point c =
    require (not (is_given c.restore_point || is_given c.apply || is_given c.rollback))
      outputs_not_allowed
check_inputs apply c = require (is_given c.restore_point) restore_point_required
check_inputs verify c = require (is_given c.apply) apply_required
check_inputs rollback c = require (is_given c.restore_point) restore_point_required
check_inputs verify_rollback c =
    require (not (not (is_given c.restore_point) || not (is_given c.rollback))) rollback_required
check_inputs (other_action t) c = ok tt

abbrev pub is_version : ℤ → Bool
is_version (pos n) = eqb n 2
is_version (negsuc n) = false

abbrev pub digested : Result Text Text → Result ExecutionError Text
digested (ok t) = ok t
digested (err e) = err (encoding_failed e)

-- The participants after the loop and the sort
abbrev pub canonical_participants : List Text → List Text
canonical_participants ps = sort_by (λ t. t) (map trim_space ps)

-- What `NewOperationExecutionContract` makes of its argument before it validates it
unfoldable pub canonical_contract : ExecutionContract → ExecutionContract
canonical_contract c = record c {
  operation_id = trim_space c.operation_id;
  run_id = trim_space c.run_id;
  plan_digest = trim_space c.plan_digest;
  participant_node_ids = canonical_participants c.participant_node_ids;
  stage = record c.stage {
    id = trim_space c.stage.id;
    executor_node_id = trim_space c.stage.executor_node_id;
  };
  schema_version = if is_first c.schema_version then contract_version else c.schema_version;
}

module _ (encoding : Encoding) where
  -- `validateOperationExecutionContract`
  unfoldable pub validate_contract : ExecutionContract → Result ExecutionError Unit
  unfolding check_staged check_targets valid_contract_identifier
  validate_contract c = do
    require (is_version c.schema_version) (unsupported_schema c.schema_version)
    require (valid_contract_identifier c.operation_id && valid_contract_identifier c.run_id)
        bad_identity
    require (valid_action c.action) (unsupported_action c.action)
    require (not (is_blank c.plan_digest)) plan_digest_required
    require (not (is_empty c.targets)) targets_required
    if is_empty c.participant_node_ids then ok tt else check_staged c
    check_targets c.targets
    require
        (not (
          is_blank c.plan.schema_version
          || is_blank c.plan.execution.schema_version
          || is_empty c.plan.execution.payload
          || not (encoding.json_valid c.plan.execution.payload)))
        plan_required
    check_inputs c.action c

  -- `NewOperationExecutionContract`
  unfoldable pub new_execution_contract :
      ExecutionContract → Result ExecutionError (ExecutionContract × Text)
  unfolding validate_contract canonical_contract
  new_execution_contract c = do
    validate_contract (canonical_contract c)
    digest ← digested (encoding.digest (canonical_contract c))
    ok (canonical_contract c, digest)

  -- `ValidateOperationExecutionContract`
  unfoldable pub validate_execution_contract : ExecutionContract → Text → Result ExecutionError Unit
  unfolding validate_contract
  validate_execution_contract c digest = do
    validate_contract c
    actual ← digested (encoding.digest c)
    require (not (is_blank digest || not (encoding.equal_fold actual (trim_space digest))))
        digest_mismatch
