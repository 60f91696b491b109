-- ===== src/Storage/Tasks/Calls.antt =====
-- app/internal/storage/sqlite/tasks.go: sequences of calls of the task store.
use setpoint_ci_mirror.Base.{
  ◌≡◌, refl, not, Option, none, some, List, [], ◌∷◌, Result, ◌||◌, arith, if_holds, ◌==◌, Memᴰ,
}
use setpoint_ci_mirror.Base.Text.{Text, text_eq}
use setpoint_ci_mirror.Task.Item.{Failure}
use setpoint_ci_mirror.Task.Phase.{Phase, canceled, is_active, terminal_phase, phase_beq}
use setpoint_ci_mirror.Storage.Tasks.{
  TaskRow, TaskResultRow, TaskTables, TaskError, Reply, get_task, get_task_for_agent, claim_task,
  acknowledge_tx, acknowledge_task, cancel_tx, cancel_task,
}
use setpoint_ci_mirror.Storage.Tasks.Complete.{
  Submission, report_again, read_result, report_first, complete_found, complete_tx, complete_task,
  insert_result, reported, is_refused,
}
use setpoint_ci_mirror.Storage.Tasks.Exclusive.{
  IsSerial, Leaves, Serial, bind-Leaves, reply_answered, get-mem, get_for_agent-mem,
  active-IsSerial, acknowledge_phase-Serial, cancel_phase-Serial, claim_task-IsSerial,
}

report_again-Serial :
    (t : TaskTables) (r : TaskRow) (phase : Phase) (digest : Text) (old : Option TaskResultRow)
    → IsSerial t.tasks
    → Leaves Serial (report_again t r phase digest old)
report_again-Serial t r phase digest none s =
    if_holds (λ (q : Result TaskError (Reply × TaskTables)). Leaves Serial q)
      (phase_beq r.phase canceled) _ _ (λ h. s) (λ h. tt)
report_again-Serial t r phase digest (some old) s =
    if_holds (λ (q : Result TaskError (Reply × TaskTables)). Leaves Serial q)
      (not (old.digest == digest) || not (phase_beq r.phase phase)) _ _ (λ h. tt) (λ h. s)

report_first-Serial :
    (id : Text) (phase : Phase) (at result digest : Text) (failure : Option Failure)
    (t : TaskTables) (r : TaskRow)
    → IsSerial t.tasks
    → Memᴰ r t.tasks × (r.id ≡ id)
    → Leaves Serial (report_first id phase at result digest failure t r)
unfolding report_first
report_first-Serial id phase at result digest failure t r s m =
    let row : TaskResultRow = record {
      task_id = id;
      result = result;
      digest = digest;
      reported_at = at;
    } in
    if_holds (λ (q : Result TaskError (Reply × TaskTables)). Leaves Serial q)
      (is_refused phase r || not (is_active r.phase)) _ _ (λ h. tt)
      (λ h.
        bind-Leaves (insert_result row t.results) (reported id phase at failure t)
          (λ rows k. active-IsSerial id _ t.tasks r (λ x. refl) (λ x. refl) s m (ground arith)))

complete_found-Serial :
    (id : Text) (submission : Submission) (at : Text) (t : TaskTables) (r : TaskRow)
    (encoded : Text × Option Failure)
    → IsSerial t.tasks
    → Memᴰ r t.tasks × (r.id ≡ id)
    → Leaves Serial (complete_found id submission at t r encoded)
unfolding complete_found
complete_found-Serial id submission at t r (result, failure) s m =
    if_holds (λ (q : Result TaskError (Reply × TaskTables)). Leaves Serial q)
      (terminal_phase r.phase) _ _
      (λ h.
        report_again-Serial t r submission.phase (submission.digest_of result)
          (read_result id t.results) s)
      (λ h.
        report_first-Serial id submission.phase at result (submission.digest_of result) failure t r
          s m)

-- A call of the task store by an agent or an operator.
pub data TaskCommand : Type 0 where
  claim_call : Text → Text → Text → TaskCommand
  acknowledge_call : Text → Text → Text → Text → TaskCommand
  cancel_call : Text → Text → TaskCommand
  complete_call : Text → Text → Submission → Text → TaskCommand

abbrev pub serve : TaskTables → TaskCommand → TaskTables
serve t (claim_call agent claim_id at) = (claim_task agent claim_id at t).1
serve t (acknowledge_call agent id claim_id at) = (acknowledge_task agent id claim_id at t).1
serve t (cancel_call id at) = (cancel_task id at t).1
serve t (complete_call agent id submission at) = (complete_task agent id submission at t).1

abbrev pub serve_all : TaskTables → List TaskCommand → TaskTables
serve_all t [] = t
serve_all t (c ∷ cs) = serve_all (serve t c) cs

serve-IsSerial : (t : TaskTables) (c : TaskCommand) → IsSerial t.tasks → IsSerial (serve t c).tasks
unfolding acknowledge_task acknowledge_tx cancel_task cancel_tx complete_task complete_tx
serve-IsSerial t (claim_call agent claim_id at) s = claim_task-IsSerial agent claim_id at t s
serve-IsSerial t (acknowledge_call agent id claim_id at) s = reply_answered t _ s (
    bind-Leaves (get_task_for_agent agent id claim_id t) _ (λ r h.
      acknowledge_phase-Serial id at t r r.phase refl s
        (get_for_agent-mem agent id claim_id t r h)))
serve-IsSerial t (cancel_call id at) s = reply_answered t _ s (
    bind-Leaves (get_task id t) _
      (λ r h. cancel_phase-Serial id at t r r.phase refl s (get-mem id t r h)))
serve-IsSerial t (complete_call agent id submission at) s = reply_answered t _ s (
    bind-Leaves (get_task_for_agent agent id submission.claim_id t) _ (λ r h.
      bind-Leaves submission.encoded _ (λ encoded g.
        complete_found-Serial id submission at t r encoded s
          (get_for_agent-mem agent id submission.claim_id t r h))))

-- From tables with different task IDs in which every agent works on one task at most, any calls of the
-- task store, in any order, lead to such tables again: no agent is ever given a second task.
pub tasks-IsSerial :
    (cs : List TaskCommand) (t : TaskTables) → IsSerial t.tasks → IsSerial (serve_all t cs).tasks
tasks-IsSerial [] t s = s
tasks-IsSerial (c ∷ cs) t s = tasks-IsSerial cs (serve t c) (serve-IsSerial t c s)
