-- ===== src/Tests/Tasks.antt =====
-- Runs of the task store.
use setpoint_ci_mirror.Base.{arith, List, ◌≡◌, refl, some, none, [], ◌∷◌, ok}
use setpoint_ci_mirror.Base.Text.{codes, text_beq, text_eq, text_lt}
use setpoint_ci_mirror.Task.Phase.{
  pending, succeeded, terminal_phase, is_active, is_pending, phase_beq,
}
use setpoint_ci_mirror.Storage.Tasks.{
  TaskRow, TaskTables, read_only_check, read_task, get_task_for_agent, earliest, update, claim_tx,
  claim_task, acknowledge_tx, acknowledge_task, cancel_task,
}
use setpoint_ci_mirror.Storage.Tasks.Complete.{
  Submission, report_first, complete_found, complete_tx, complete_task,
}
use setpoint_ci_mirror.Storage.Tasks.Final.{terminal-final}
use setpoint_ci_mirror.Storage.Tasks.Exclusive.{IsSerial}
use setpoint_ci_mirror.Storage.Tasks.Calls.{
  TaskCommand, claim_call, cancel_call, serve_all, tasks-IsSerial,
}

abbrev pub task : TaskRow
task = record {
  id = codes "t";
  idempotency_key = codes "k";
  node_id = codes "n";
  kind = read_only_check;
  spec = codes "ssh";
  phase = pending;
  claim_id = [];
  attempt = 0;
  created_at = codes "1";
  updated_at = codes "1";
  claimed_at = none;
  acknowledged_at = none;
  cancel_requested_at = none;
  completed_at = none;
  last_error = none;
}

abbrev tables : TaskTables
tables = record { tasks = task ∷ []; results = []; events = []; runs = [] }

abbrev submission : Submission
submission = record {
  claim_id = codes "c";
  phase = succeeded;
  encoded = ok (codes "safe", none);
  digest_of = λ text. text;
}

abbrev claimed_tables : TaskTables
claimed_tables = (claim_task (codes "n") (codes "c") (codes "2") tables).1

abbrev running_tables : TaskTables
running_tables = (acknowledge_task (codes "n") (codes "t") (codes "c") (codes "3") claimed_tables).1

abbrev ended_tables : TaskTables
ended_tables = (complete_task (codes "n") (codes "t") submission (codes "4") running_tables).1

abbrev ended_task : TaskRow
ended_task = record task {
  phase = succeeded;
  claim_id = codes "c";
  attempt = 1;
  updated_at = codes "4";
  claimed_at = some (codes "2");
  acknowledged_at = some (codes "3");
  completed_at = some (codes "4");
}

-- A task goes from its claim over its acknowledgement to its report.
task_ends : read_task (codes "t") ended_tables.tasks ≡ some ended_task
unfolding claim_task claim_tx earliest update acknowledge_task acknowledge_tx get_task_for_agent
    complete_task complete_tx complete_found report_first is_active is_pending terminal_phase
    phase_beq text_beq text_lt
task_ends = refl

terminal-final_example :
    ((acknowledge_task (codes "n") (codes "t") (codes "c") (codes "5") ended_tables).1
      ≡ ended_tables)
    × ((cancel_task (codes "t") (codes "5") ended_tables).1 ≡ ended_tables)
    × ((complete_task (codes "n") (codes "t") submission (codes "5") ended_tables).1 ≡ ended_tables)
unfolding terminal_phase
terminal-final_example =
    terminal-final ended_tables (codes "t") ended_task task_ends refl (codes "n") (codes "c")
      (codes "5") submission

abbrev second_task : TaskRow
second_task = record task { id = codes "u"; idempotency_key = codes "l"; created_at = codes "2" }

abbrev two_tables : TaskTables
two_tables = record tables { tasks = task ∷ second_task ∷ [] }

abbrev calls : List TaskCommand
calls =
    claim_call (codes "n") (codes "c") (codes "3")
    ∷ claim_call (codes "n") (codes "d") (codes "4")
    ∷ cancel_call (codes "t") (codes "5")
    ∷ []

two_tables-IsSerial : IsSerial two_tables.tasks
unfolding is_active text_beq
two_tables-IsSerial = record { ids = (refl, (refl, tt)); one = λ n. ground arith }

tasks-IsSerial_example : IsSerial (serve_all two_tables calls).tasks
tasks-IsSerial_example = tasks-IsSerial calls two_tables two_tables-IsSerial
