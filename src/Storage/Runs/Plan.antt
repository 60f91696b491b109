-- ===== src/Storage/Runs/Plan.antt =====
-- app/internal/storage/sqlite/operation_runs.go: `applyOperationPlanningResultTx`, which stores what the
-- planning of an operation has found. A run has its task to itself (`task_id TEXT NOT NULL UNIQUE`).
use setpoint_ci_mirror.Base.{
  ℕ, Bool, true, not, ◌&&◌, ◌||◌, Option, none, some, List, Result, ok, err, ◌>>◌, require, find,
  keep, replace, length, eqb, ◌==◌,
}
use setpoint_ci_mirror.Base.Text.{Text, codes, text_eq}
use setpoint_ci_mirror.Operation.State.{state_eq, canceled_before_apply}
use setpoint_ci_mirror.Operation.Definition.{Plan, PlanStep}
use setpoint_ci_mirror.Operation.Planning.{PlanningBlock, PlanningFailure, PlanningResult}
use setpoint_ci_mirror.OperationRun.{OperationRun}
use setpoint_ci_mirror.OperationRun.Stages.{StageError, execution_stages}
use setpoint_ci_mirror.Storage.Runs.Tables.{RunTables}

pub data PlanStoreError : Type 0 where
  run_missing : PlanStoreError
  bad_stages : StageError → PlanStoreError

abbrev pub of_task : Text → OperationRun → Bool
of_task task r = r.task_id == task

-- `SELECT … FROM operation_runs WHERE task_id = ?`
abbrev pub read_run_of : Text → List OperationRun → Option OperationRun
read_run_of task runs = find (of_task task) runs

abbrev pub frozen : Result StageError (List PlanStep) → Result PlanStoreError Unit
frozen (ok stages) = ok tt
frozen (err e) = err (bad_stages e)

abbrev pub check_run : Plan → Option OperationRun → Result PlanStoreError Unit
check_run plan none = err run_missing
check_run plan (some run) = frozen (execution_stages (record run { plan = some plan }))

-- The frozen stages of a plan, before anything is stored
abbrev pub check_frozen : Option Plan → Option OperationRun → Result PlanStoreError Unit
check_frozen none run = ok tt
check_frozen (some plan) run = check_run plan run

-- The block that is stored: that of the result, or one made of its error
abbrev pub block_of : Option PlanningBlock → Option PlanningFailure → Option PlanningBlock
block_of (some b) e = some b
block_of none none = none
block_of none (some e) = some (record {
  code = e.code;
  message = e.message;
  safe_next = codes "inspect_the_failure_and_create_a_new_run";
  manual_review = true;
})

abbrev pub planned_run : PlanningResult → ℕ → OperationRun → OperationRun
planned_run result at r = record r {
  state = result.state;
  checkpoint = result.checkpoint;
  plan_digest = result.plan_digest;
  discovery = result.discovery;
  precheck = result.precheck;
  plan = result.plan;
  impact = result.impact;
  block = block_of result.block result.error;
  updated_at = at;
}

-- A canceled run takes no result but a cancellation.
abbrev pub takes_result : Text → PlanningResult → OperationRun → Bool
takes_result task result r =
    of_task task r
    && (result.state == canceled_before_apply || not (r.state == canceled_before_apply))

-- `applyOperationPlanningResultTx`
unfoldable pub apply_planning_result :
    Text → PlanningResult → ℕ → RunTables → Result PlanStoreError RunTables
apply_planning_result task result at t = do
  check_frozen result.plan (read_run_of task t.runs)
  require (eqb (length (keep (takes_result task result) t.runs)) 1) run_missing
  ok (record t { runs = replace (takes_result task result) (planned_run result at) t.runs })
