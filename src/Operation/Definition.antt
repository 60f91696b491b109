-- ===== src/Operation/Definition.antt =====
-- app/internal/operation/definition.go: what an operation definition reads and returns. A JSON payload
-- is its text. The command executor of `RuntimeInput` belongs to the definition's own code and is
-- left out.
use setpoint_ci_mirror.Base.{Bool, false, Option, none, List, []}
use setpoint_ci_mirror.Base.Int.{ℤ, pos}
use setpoint_ci_mirror.Base.Text.{Text}
use setpoint_ci_mirror.Operation.Target.{Target}

pub record SecretRef : Type 0 where
  pub requirement_id : Text
  pub reference : Text

pub record Artifact : Type 0 where
  pub schema_version : Text
  pub payload : Text

pub record Finding : Type 0 where
  pub code : Text
  pub severity : Text
  pub summary : Text
  pub detail : Text
  pub target : Option Target

pub record EvidenceRef : Type 0 where
  pub id : Text
  pub kind : Text
  pub sha256 : Text

pub record RuntimeInput : Type 0 where
  pub parameters : Text
  pub system : Text
  pub targets : List Target
  pub secret_refs : List SecretRef

pub record Discovery : Type 0 where
  pub applicable : Bool
  pub summary : Text
  pub targets : List Target
  pub snapshot : Artifact
  pub findings : List Finding
  pub evidence : List EvidenceRef

pub record Precheck : Type 0 where
  pub passed : Bool
  pub summary : Text
  pub snapshot : Artifact
  pub findings : List Finding
  pub evidence : List EvidenceRef

pub record StagePrecondition : Type 0 where
  pub kind : Text
  pub participant_node_id : Text
  pub verified : Bool
  pub evidence : List EvidenceRef

pub record PlanStep : Type 0 where
  pub id : Text
  pub name : Text
  pub target : Target
  pub action : Text
  pub checkpoint : Text
  pub writes : Bool
  pub retry_safe : Bool
  pub rollback_action : Text
  pub executor_node_id : Text
  pub barrier : Text
  pub mutation : Text
  pub preconditions : List StagePrecondition

pub record Plan : Type 0 where
  pub schema_version : Text
  pub summary : Text
  pub steps : List PlanStep
  pub execution : Artifact
  pub findings : List Finding
  pub evidence : List EvidenceRef

pub record Change : Type 0 where
  pub target : Target
  pub before : Text
  pub after : Text
  pub risk : Text

pub record Impact : Type 0 where
  pub summary : Text
  pub risk : Text
  pub changes : List Change
  pub requires_downtime : Bool
  pub requires_write_fence : Bool
  pub estimated_duration : ℤ
  pub estimated_data_change : ℤ

pub record ReconnectHandoff : Type 0 where
  pub barrier : Text
  pub reboot : Bool
  pub boot_id_before : Text
  pub boot_id_after : Text

pub record ApplyResult : Type 0 where
  pub changed : Bool
  pub mutation_state : Text
  pub checkpoint : Text
  pub state : Artifact
  pub evidence : List EvidenceRef
  pub reconnect : Option ReconnectHandoff

pub record Verification : Type 0 where
  pub passed : Bool
  pub summary : Text
  pub findings : List Finding
  pub evidence : List EvidenceRef

pub record RollbackResult : Type 0 where
  pub restored : Bool
  pub mutation_state : Text
  pub checkpoint : Text
  pub state : Artifact
  pub evidence : List EvidenceRef
  pub reconnect : Option ReconnectHandoff

-- The zero values of the types, which a run holds before a step has set them.
abbrev pub zero_artifact : Artifact
zero_artifact = record { schema_version = []; payload = [] }

abbrev pub zero_discovery : Discovery
zero_discovery = record {
  applicable = false;
  summary = [];
  targets = [];
  snapshot = zero_artifact;
  findings = [];
  evidence = [];
}

abbrev pub zero_precheck : Precheck
zero_precheck = record {
  passed = false;
  summary = [];
  snapshot = zero_artifact;
  findings = [];
  evidence = [];
}

abbrev pub zero_plan : Plan
zero_plan = record {
  schema_version = [];
  summary = [];
  steps = [];
  execution = zero_artifact;
  findings = [];
  evidence = [];
}

abbrev pub zero_impact : Impact
zero_impact = record {
  summary = [];
  risk = [];
  changes = [];
  requires_downtime = false;
  requires_write_fence = false;
  estimated_duration = pos 0;
  estimated_data_change = pos 0;
}

abbrev pub zero_apply : ApplyResult
zero_apply = record {
  changed = false;
  mutation_state = [];
  checkpoint = [];
  state = zero_artifact;
  evidence = [];
  reconnect = none;
}

abbrev pub zero_verification : Verification
zero_verification = record { passed = false; summary = []; findings = []; evidence = [] }

abbrev pub zero_rollback : RollbackResult
zero_rollback = record {
  restored = false;
  mutation_state = [];
  checkpoint = [];
  state = zero_artifact;
  evidence = [];
  reconnect = none;
}
