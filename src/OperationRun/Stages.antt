-- ===== src/OperationRun/Stages.antt =====
-- app/internal/operationrun/stages.go and app/internal/operation/stage.go: the physical stages of a run.
use setpoint_ci_mirror.Base.{
  Bool, true, false, not, ◌&&◌, ◌||◌, Option, none, some, List, [], ◌∷◌, ◌++◌, Result, ok, err,
  ◌>>◌, require, is_empty, contains, if◌then◌else◌, ◌==◌,
}
use setpoint_ci_mirror.Base.Text.{Text, codes, text_eq, trim_space}
use setpoint_ci_mirror.Operation.Target.{Target, node}
use setpoint_ci_mirror.Operation.Equal.{target_eq}
use setpoint_ci_mirror.Operation.Definition.{PlanStep, Plan, StagePrecondition}
use setpoint_ci_mirror.OperationRun.{OperationRun}

pub data StageError : Type 0 where
  identity_required executor_outside precondition_outside evidence_required : StageError
  owner_not_verified no_participants no_stages : StageError
  unsupported_precondition unsupported_barrier duplicate_stage : Text → StageError

-- The constants of definition.go
abbrev pub vip_owner : Text
vip_owner = codes "vip_owner"

abbrev pub agent_reconnect : Text
agent_reconnect = codes "agent_reconnect"

-- The loop over the preconditions
unfoldable pub check_preconditions : List Text → List StagePrecondition → Result StageError Unit
check_preconditions participants [] = ok tt
check_preconditions participants (c ∷ cs) = do
  require (c.kind == vip_owner) (unsupported_precondition c.kind)
  require (contains c.participant_node_id participants) precondition_outside
  require (not (not c.verified || is_empty c.evidence)) evidence_required
  check_preconditions participants cs

-- `verifiedVIPOwner` after the loop
unfoldable pub owner_verified : Text → List StagePrecondition → Bool
owner_verified executor [] = false
owner_verified executor (c ∷ cs) = c.participant_node_id == executor || owner_verified executor cs

-- `ValidateExecutionStage`
unfoldable pub validate_execution_stage : PlanStep → List Text → Result StageError Unit
unfolding check_preconditions owner_verified
validate_execution_stage stage participants = do
  let executor = trim_space stage.executor_node_id
  require (not (is_empty (trim_space stage.id) || is_empty executor)) identity_required
  require (contains executor participants) executor_outside
  check_preconditions participants stage.preconditions
  require (not (stage.mutation == vip_owner && not (owner_verified executor stage.preconditions)))
      owner_not_verified
  require (is_empty stage.barrier || stage.barrier == agent_reconnect)
      (unsupported_barrier stage.barrier)

abbrev pub node_target : Text → Target
node_target id = record {
  kind = node;
  site_id = [];
  node_id = id;
  component_name = [];
  resource = [];
}

-- The one stage of a run on a single node
abbrev pub single_stage : Text → PlanStep
single_stage id = record {
  id = codes "single-node";
  name = codes "single-node operation";
  target = node_target id;
  action = [];
  checkpoint = [];
  writes = false;
  retry_safe = false;
  rollback_action = [];
  executor_node_id = id;
  barrier = [];
  mutation = [];
  preconditions = [];
}

-- The loop over the stages of a plan; `seen` is its map.
unfoldable pub check_stages : List Text → List Text → List PlanStep → Result StageError Unit
check_stages participants seen [] = ok tt
check_stages participants seen (s ∷ ss) = do
  validate_execution_stage s participants
  require (not (contains s.id seen)) (duplicate_stage s.id)
  check_stages participants (s.id ∷ seen) ss

abbrev pub plan_steps : Option Plan → List PlanStep
plan_steps none = []
plan_steps (some plan) = plan.steps

abbrev pub run_participants : OperationRun → List Text
run_participants run =
    if is_empty run.spec.participant_node_ids && not (is_empty run.spec.node_id)
    then run.spec.node_id ∷ []
    else run.spec.participant_node_ids

abbrev pub stages_for : OperationRun → List Text → Result StageError (List PlanStep)
stages_for run [] = err no_participants
stages_for run (p ∷ []) =
    validate_execution_stage (single_stage p) (p ∷ []) >> ok (single_stage p ∷ [])
stages_for run (p ∷ q ∷ ps) = do
  require (not (is_empty (plan_steps run.plan))) no_stages
  check_stages (p ∷ q ∷ ps) [] (plan_steps run.plan)
  ok (plan_steps run.plan)

-- `ExecutionStages`; a caller reads the stages only where the error is nil.
unfoldable pub execution_stages : OperationRun → Result StageError (List PlanStep)
unfolding validate_execution_stage check_stages
execution_stages run = stages_for run (run_participants run)

abbrev pub same_target : Target → Target → Bool
same_target a b = target_eq.beq a b

abbrev pub has_target : Target → List Target → Bool
has_target t [] = false
has_target t (u ∷ us) = same_target u t || has_target t us

-- The targets that were not seen, in order
unfoldable pub unique_targets : List Target → List Target → List Target
unique_targets seen [] = []
unique_targets seen (t ∷ ts) =
    let known = unique_targets seen ts in
    let added = t ∷ unique_targets (t ∷ seen) ts in if has_target t seen then known else added

abbrev pub step_targets : List PlanStep → List Target
step_targets [] = []
step_targets (s ∷ ss) = s.target ∷ step_targets ss

abbrev pub is_multi_node : List Text → Bool
is_multi_node [] = false
is_multi_node (p ∷ []) = false
is_multi_node (p ∷ q ∷ ps) = true

-- `StageTargets`
unfoldable pub stage_targets : OperationRun → PlanStep → List Target
unfolding unique_targets
stage_targets run stage =
    if is_multi_node run.spec.participant_node_ids
    then (if same_target stage.target (node_target stage.executor_node_id)
        then node_target stage.executor_node_id ∷ []
        else node_target stage.executor_node_id ∷ stage.target ∷ [])
    else unique_targets [] (run.spec.targets ++ step_targets (plan_steps run.plan))
