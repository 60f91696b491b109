-- ===== src/Storage/Tasks/Complete.antt =====
-- app/internal/storage/sqlite/tasks.go: `CompleteTask` for a submission without an operation result.
use setpoint_ci_mirror.Base.{
  Bool, true, false, not, ◌&&◌, ◌||◌, Option, none, some, List, ◌∷◌, Result, ok, err, ◌>>=◌, find,
  if◌then◌else◌, ◌==◌,
}
use setpoint_ci_mirror.Base.Text.{Text, codes, text_eq}
use setpoint_ci_mirror.Task.Phase.{
  Phase, cancel_requested, canceled, terminal_phase, is_active, phase_beq,
}
use setpoint_ci_mirror.Task.Item.{Failure}
use setpoint_ci_mirror.Storage.Tx.{transact}
use setpoint_ci_mirror.Storage.Tasks.{
  TaskKind, operation_planning, TaskRow, TaskResultRow, TaskTables, TaskError, result_conflict,
  invalid_transition, result_missing, unique_violation, update, with_event, get_task_for_agent,
  Reply, as_read, after_commit, reply_answer,
}

-- A submission with its encoding by `encodeTaskSubmission` and the digest of that text.
pub record Submission : Type 0 where
  pub claim_id : Text
  pub phase : Phase
  pub encoded : Result TaskError (Text × Option Failure)
  pub digest_of : Text → Text

abbrev pub read_result : Text → List TaskResultRow → Option TaskResultRow
read_result id rows = find (λ r. r.task_id == id) rows

-- The report of a task that has ended already.
abbrev pub report_again :
    TaskTables
    → TaskRow
    → Phase
    → Text
    → Option TaskResultRow
    → Result TaskError (Reply × TaskTables)
report_again t r phase digest none =
    if phase_beq r.phase canceled then ok (as_read r, t) else err result_missing
report_again t r phase digest (some old) =
    if not (old.digest == digest) || not (phase_beq r.phase phase)
    then err result_conflict
    else ok (as_read r, t)

abbrev pub is_planning : TaskKind → Bool
is_planning operation_planning = true
is_planning _ = false

-- `INSERT INTO task_results`; `task_id` is the primary key.
abbrev pub insert_result :
    TaskResultRow → List TaskResultRow → Result TaskError (List TaskResultRow)
insert_result row rows = elim (read_result row.task_id rows) [
  | none ↦ ok (row ∷ rows)
  | some _ ↦ err unique_violation
]

-- The writes of `CompleteTask` to the task and its events.
abbrev pub reported :
    Text
    → Phase
    → Text
    → Option Failure
    → TaskTables
    → List TaskResultRow
    → Result TaskError (Reply × TaskTables)
reported id phase at failure t rows =
    let change = λ (x : TaskRow). record x {
      phase = phase;
      completed_at = some at;
      updated_at = at;
      last_error = failure;
    } in
    ok (
      after_commit id,
      with_event id phase (codes "result_reported") at
          (record t { tasks = update (λ x. x.id == id) change t.tasks; results = rows }),
    )

-- A task of the planning kind whose cancellation was requested takes a canceled result only.
abbrev pub is_refused : Phase → TaskRow → Bool
is_refused phase r =
    is_planning r.kind && phase_beq r.phase cancel_requested && not (phase_beq phase canceled)

-- The rest of `CompleteTask`, for a task that has not ended.
unfoldable pub report_first :
    Text
    → Phase
    → Text
    → Text
    → Text
    → Option Failure
    → TaskTables
    → TaskRow
    → Result TaskError (Reply × TaskTables)
report_first id phase at result digest failure t r =
    let row : TaskResultRow = record {
      task_id = id;
      result = result;
      digest = digest;
      reported_at = at;
    } in
    let next = insert_result row t.results >>= reported id phase at failure t in
    if is_refused phase r || not (is_active r.phase) then err (invalid_transition r.phase) else next

unfoldable pub complete_found :
    Text
    → Submission
    → Text
    → TaskTables
    → TaskRow
    → Text × Option Failure
    → Result TaskError (Reply × TaskTables)
complete_found id submission at t r (result, failure) =
    let digest = submission.digest_of result in
    let again = report_again t r submission.phase digest (read_result id t.results) in
    let first = report_first id submission.phase at result digest failure t r in
    if terminal_phase r.phase then again else first

-- The body of `CompleteTask`.
unfoldable pub complete_tx :
    Text → Text → Submission → Text → TaskTables → Result TaskError (Reply × TaskTables)
complete_tx agent id submission at t = do
  r ← get_task_for_agent agent id submission.claim_id t
  encoded ← submission.encoded
  complete_found id submission at t r encoded

-- `CompleteTask`
unfoldable pub complete_task :
    Text → Text → Submission → Text → TaskTables → Result TaskError TaskRow × TaskTables
complete_task agent id submission at t =
    reply_answer (transact t (complete_tx agent id submission at t))
