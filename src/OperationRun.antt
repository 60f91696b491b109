-- ===== src/OperationRun.antt =====
-- app/internal/operationrun/operationrun.go: an operation run as the store keeps it. The constants of
-- the API (`APIVersion`, `Kind`, `ApplyAvailable`) are left out, and a time is 0 where Go has the zero
-- time. A pointer that may be nil is an `Option`.
pub mod Stages
pub mod Sequence
use setpoint_ci_mirror.Base.{ℕ, Bool, Option, none, List, []}
use setpoint_ci_mirror.Base.Text.{Text}
use setpoint_ci_mirror.Operation.State.{State}
use setpoint_ci_mirror.Operation.Target.{Target}
use setpoint_ci_mirror.Operation.Definition.{
  SecretRef, Discovery, Precheck, Plan, Impact, ApplyResult, Verification, RollbackResult,
}
use setpoint_ci_mirror.Operation.RestorePoint.{RestorePoint}
use setpoint_ci_mirror.Operation.Planning.{PlanningBlock}

-- `Spec`
pub record RunSpec : Type 0 where
  pub operation_id : Text
  pub operation_version : Text
  pub capability_digest : Text
  pub node_id : Text
  pub participant_node_ids : List Text
  pub targets : List Target
  pub parameters : Text
  pub secret_refs : List SecretRef

pub record Recovery : Type 0 where
  pub code : Text
  pub checkpoint : Text
  pub safe_next : Text
  pub manual_review : Bool

pub record StageExecutionSnapshot : Type 0 where
  pub stage_index : ℕ
  pub stage_id : Text
  pub executor_node_id : Text
  pub restore_point_at : ℕ
  pub apply_at : ℕ
  pub verification_at : ℕ
  pub rollback_at : ℕ
  pub rollback_verification_at : ℕ
  pub restore_point : Option RestorePoint
  pub apply : Option ApplyResult
  pub verification : Option Verification
  pub rollback : Option RollbackResult
  pub rollback_verification : Option Verification

pub record ExecutionSnapshot : Type 0 where
  pub restore_point : Option RestorePoint
  pub apply : Option ApplyResult
  pub verification : Option Verification
  pub rollback : Option RollbackResult
  pub rollback_verification : Option Verification
  pub stages : List StageExecutionSnapshot

-- `ExecutionSnapshot{}`
abbrev pub no_facts : ExecutionSnapshot
no_facts = record {
  restore_point = none;
  apply = none;
  verification = none;
  rollback = none;
  rollback_verification = none;
  stages = [];
}

-- `Resource`, with the fields of `Metadata` and `Status`.
pub record OperationRun : Type 0 where
  pub id : Text
  pub idempotency_key : Text
  pub created_at : ℕ
  pub spec : RunSpec
  pub state : State
  pub checkpoint : Text
  pub task_id : Text
  pub updated_at : ℕ
  pub block : Option PlanningBlock
  pub recovery : Option Recovery
  pub discovery : Option Discovery
  pub precheck : Option Precheck
  pub plan : Option Plan
  pub impact : Option Impact
  pub plan_digest : Text
  pub execution : Option ExecutionSnapshot
