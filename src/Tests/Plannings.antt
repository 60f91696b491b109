-- ===== src/Tests/Plannings.antt =====
-- Runs of the planning and of the execution stages.
use setpoint_ci_mirror.Base.{◌≡◌, ◌⊎◌, refl, true, false, some, [], ◌∷◌, ok, err, List, contains}
use setpoint_ci_mirror.Base.Text.{Text, codes, text_beq, text_eq, trim_space}
use setpoint_ci_mirror.Operation.State.{
  State, awaiting_confirmation, interrupted, discovering, canceled_before_apply, state_beq,
}
use setpoint_ci_mirror.Operation.Metadata.{Metadata, low, validate_metadata}
use setpoint_ci_mirror.Operation.Definition.{
  RuntimeInput, PlanStep, zero_discovery, zero_precheck, zero_plan, zero_impact,
}
use setpoint_ci_mirror.Operation.Planning.{
  PlanningResult, PlanningDefinition, Digests, plain, execute_planning,
}
use setpoint_ci_mirror.Operation.Planning.Endings.{IsReady, IsRefused}
use setpoint_ci_mirror.Operation.Planning.Outcome.{execute_planning-ends}
use setpoint_ci_mirror.OperationRun.{OperationRun}
use setpoint_ci_mirror.OperationRun.Stages.{node_target, execution_stages}
use setpoint_ci_mirror.OperationRun.Sequence.{IsSequence, execution_stages-IsSequence}
use setpoint_ci_mirror.Storage.Runs.Tables.{RunTables}
use setpoint_ci_mirror.Storage.Runs.Plan.{run_missing, planned_run, apply_planning_result}
use setpoint_ci_mirror.Storage.Runs.Planned.{IsPlanned, apply_planning_result-IsPlanned}
use setpoint_ci_mirror.Tests.Runs.{run_in}

abbrev pub metadata : Metadata
metadata = record {
  id = codes "op";
  category = codes "c";
  name = codes "n";
  version = codes "1";
  description = [];
  risk = low;
  impact = [];
  supported_systems = codes "s" ∷ [];
  parameters = [];
  secret_requirements = [];
}

abbrev digests : Digests
digests = record {
  refused = λ e. plain (codes "contract");
  described = λ m. ok m.id;
  json_valid = λ t. true;
  encoded = λ capability targets parameters refs plan impact. ok (codes "digest");
}

abbrev runtime : RuntimeInput
runtime = record {
  parameters = codes "{}";
  system = codes "s";
  targets = node_target (codes "a") ∷ [];
  secret_refs = [];
}

abbrev definition : PlanningDefinition
definition = record {
  metadata = metadata;
  discover = λ r. ok (record zero_discovery { applicable = true; targets = r.targets });
  precheck = λ r d. ok (record zero_precheck { passed = true });
  plan = λ r d c. ok zero_plan;
  impact = λ r p. ok zero_impact;
}

abbrev timed_out : PlanningDefinition
timed_out = record definition {
  precheck = λ r d. err (record { message = codes "deadline"; stopped = true });
}

-- A planning that goes through, and one whose precheck times out.
planned_state : (execute_planning digests definition runtime 9 1).state ≡ awaiting_confirmation
unfolding execute_planning validate_metadata
    setpoint_ci_mirror.Operation.Planning.capability_digest_of
    setpoint_ci_mirror.Operation.Metadata.valid_id trim_space
    setpoint_ci_mirror.Operation.Metadata.valid_risk
    setpoint_ci_mirror.Operation.Metadata.validate_parameters
    setpoint_ci_mirror.Operation.Metadata.validate_secrets
planned_state = refl

timed_out_state : (execute_planning digests timed_out runtime 9 1).state ≡ interrupted
unfolding execute_planning validate_metadata
    setpoint_ci_mirror.Operation.Planning.capability_digest_of
    setpoint_ci_mirror.Operation.Metadata.valid_id trim_space
    setpoint_ci_mirror.Operation.Metadata.valid_risk
    setpoint_ci_mirror.Operation.Metadata.validate_parameters
    setpoint_ci_mirror.Operation.Metadata.validate_secrets
timed_out_state = refl

execute_planning-ends_example :
    IsReady digests definition runtime (execute_planning digests definition runtime 9 1)
    ⊎ IsRefused (execute_planning digests definition runtime 9 1)
execute_planning-ends_example = execute_planning-ends digests definition runtime 9 1

abbrev pub stage_on : Text → Text → PlanStep
stage_on id executor = record {
  id = id;
  name = [];
  target = node_target executor;
  action = [];
  checkpoint = [];
  writes = true;
  retry_safe = false;
  rollback_action = [];
  executor_node_id = executor;
  barrier = [];
  mutation = [];
  preconditions = [];
}

abbrev two_nodes : List PlanStep → OperationRun
two_nodes steps = record (run_in awaiting_confirmation) {
  spec = record (run_in awaiting_confirmation).spec {
    participant_node_ids = codes "a" ∷ codes "b" ∷ [];
  };
  plan = some (record zero_plan { steps = steps });
}

abbrev staged : List PlanStep
staged = stage_on (codes "s1") (codes "a") ∷ stage_on (codes "s2") (codes "b") ∷ []

staged_ok : execution_stages (two_nodes staged) ≡ ok staged
unfolding execution_stages trim_space text_beq
staged_ok = refl

execution_stages-IsSequence_example : IsSequence (two_nodes staged) staged
execution_stages-IsSequence_example =
    execution_stages-IsSequence (two_nodes staged) staged staged_ok

-- A stage is checked by its trimmed executor and returned with the given one, which no participant has.
abbrev spaced : List PlanStep
spaced = stage_on (codes "s1") (codes " a ") ∷ []

spaced_accepted : execution_stages (two_nodes spaced) ≡ ok spaced
unfolding execution_stages trim_space text_beq
spaced_accepted = refl

spaced_outside : contains (codes " a ") (two_nodes spaced).spec.participant_node_ids ≡ false
unfolding text_beq
spaced_outside = refl

-- The planning's result is stored in the run of its task, and a canceled run takes none.
abbrev result : PlanningResult
result = execute_planning digests definition runtime 9 1

abbrev stored_in : State → RunTables
stored_in s = record { runs = run_in s ∷ []; journal = [] }

abbrev after_planning : RunTables
after_planning = record { runs = planned_run result 20 (run_in discovering) ∷ []; journal = [] }

result_stored :
    apply_planning_result (codes "t") result 20 (stored_in discovering) ≡ ok after_planning
unfolding apply_planning_result execute_planning
    setpoint_ci_mirror.Operation.Planning.capability_digest_of validate_metadata
    setpoint_ci_mirror.Operation.Metadata.valid_id trim_space
    setpoint_ci_mirror.Operation.Metadata.valid_risk
    setpoint_ci_mirror.Operation.Metadata.validate_parameters
    setpoint_ci_mirror.Operation.Metadata.validate_secrets text_beq execution_stages state_beq
result_stored = refl

canceled_takes_none :
    apply_planning_result (codes "t") result 20 (stored_in canceled_before_apply) ≡ err run_missing
unfolding apply_planning_result execute_planning
    setpoint_ci_mirror.Operation.Planning.capability_digest_of validate_metadata
    setpoint_ci_mirror.Operation.Metadata.valid_id trim_space
    setpoint_ci_mirror.Operation.Metadata.valid_risk
    setpoint_ci_mirror.Operation.Metadata.validate_parameters
    setpoint_ci_mirror.Operation.Metadata.validate_secrets text_beq execution_stages state_beq
canceled_takes_none = refl

apply_planning_result-IsPlanned_example :
    IsPlanned (codes "t") result 20 (stored_in discovering) after_planning
apply_planning_result-IsPlanned_example =
    apply_planning_result-IsPlanned (codes "t") result 20 (stored_in discovering) after_planning
      (refl, tt) result_stored
