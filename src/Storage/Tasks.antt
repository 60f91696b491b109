-- ===== src/Storage/Tasks.antt =====
-- app/internal/storage/sqlite/tasks.go: the tasks that agents claim, as transactions over the tables.
-- A row has the columns that the operations read or write; a specification is kept as the text that
-- the operations compare, and a NULL claim is the empty text. The order of `created_at` is that of
-- its stored text. `CompleteTask` is modelled for submissions without an operation result, as the check
-- tasks have them; the encoding of a submission and its digest are arguments.
pub mod Complete
pub mod Final
pub mod Serial
pub mod Exclusive
pub mod Calls
use setpoint_ci_mirror.Base.{
  ℕ, ◌+◌, Bool, true, false, not, ◌&&◌, ◌||◌, Option, none, some, List, [], ◌∷◌, Result, ok, err,
  ◌>>=◌, ◌>>◌, require, eqb, find, is_empty, if◌then◌else◌, ◌==◌, length, keep,
}
use setpoint_ci_mirror.Base.Text.{Text, codes, text_lt, text_eq}
use setpoint_ci_mirror.Operation.State.{State, discovering}
use setpoint_ci_mirror.Task.Phase.{
  Phase, pending, claimed, running, cancel_requested, canceled, terminal_phase, is_active,
  is_pending, phase_beq,
}
use setpoint_ci_mirror.Task.Item.{Failure}
use setpoint_ci_mirror.Storage.Tx.{transact}

pub data TaskKind : Type 0 where
  read_only_check operation_planning operation_execution topology_discovery : TaskKind

pub record TaskRow : Type 0 where
  pub id : Text
  pub idempotency_key : Text
  pub node_id : Text
  pub kind : TaskKind
  pub spec : Text
  pub phase : Phase
  pub claim_id : Text
  pub attempt : ℕ
  pub created_at : Text
  pub updated_at : Text
  pub claimed_at : Option Text
  pub acknowledged_at : Option Text
  pub cancel_requested_at : Option Text
  pub completed_at : Option Text
  pub last_error : Option Failure

-- A row of `task_results`.
pub record TaskResultRow : Type 0 where
  pub task_id : Text
  pub result : Text
  pub digest : Text
  pub reported_at : Text

-- A row of `task_events`.
pub record TaskEvent : Type 0 where
  pub task_id : Text
  pub phase : Phase
  pub event_type : Text
  pub at : Text

-- The columns of `operation_runs` that an acknowledgement writes.
pub record RunRow : Type 0 where
  pub task_id : Text
  pub state : State
  pub checkpoint : Text
  pub updated_at : Text

pub record TaskTables : Type 0 where
  pub tasks : List TaskRow
  pub results : List TaskResultRow
  pub events : List TaskEvent
  pub runs : List RunRow

pub data TaskError : Type 0 where
  not_found node_mismatch claim_mismatch result_conflict : TaskError
  invalid_transition : Phase → TaskError
  claimed_concurrently result_missing unique_violation : TaskError
  bad_submission : Text → TaskError

abbrev pub read_task : Text → List TaskRow → Option TaskRow
read_task id rows = find (λ r. r.id == id) rows

abbrev pub found : Option TaskRow → Result TaskError TaskRow
found none = err not_found
found (some r) = ok r

-- `GetTask`, after the commit
abbrev pub get_task : Text → TaskTables → Result TaskError TaskRow
get_task id t = found (read_task id t.tasks)

-- `ORDER BY created_at, id`
abbrev pub precedes : TaskRow → TaskRow → Bool
precedes a b =
    text_lt a.created_at b.created_at || (a.created_at == b.created_at && text_lt a.id b.id)

abbrev pub earlier : TaskRow → Option TaskRow → Option TaskRow
earlier r none = some r
earlier r (some s) = if precedes s r then some s else some r

-- `SELECT … ORDER BY created_at, id LIMIT 1`
unfoldable pub earliest : (TaskRow → Bool) → List TaskRow → Option TaskRow
earliest test [] = none
earliest test (r ∷ rs) = let rest = earliest test rs in if test r then earlier r rest else rest

-- `UPDATE tasks SET … WHERE …`
unfoldable pub update : (TaskRow → Bool) → (TaskRow → TaskRow) → List TaskRow → List TaskRow
update test change [] = []
update test change (r ∷ rs) = (if test r then change r else r) ∷ update test change rs

-- `insertTaskEvent`
abbrev pub with_event : Text → Phase → Text → Text → TaskTables → TaskTables
with_event id phase event_type at t = record t {
  events = record { task_id = id; phase = phase; event_type = event_type; at = at } ∷ t.events;
}

-- What `ClaimTask` finds: a task that the agent has already, no task, or a task that it takes.
pub data Claim : Type 0 where
  held : TaskRow → Claim
  idle : Claim
  taken : Text → Claim

abbrev pub claimable : TaskRow → TaskRow → Bool
claimable p r = r.id == p.id && is_pending r.phase

abbrev pub take_pending :
    Text → Text → TaskTables → Option TaskRow → Result TaskError (Claim × TaskTables)
take_pending claim_id at t none = ok (idle, t)
take_pending claim_id at t (some p) = do
  let change = λ (r : TaskRow). record r {
    phase = claimed;
    claim_id = claim_id;
    attempt = r.attempt + 1;
    claimed_at = some at;
    updated_at = at;
  }
  require (eqb (length (keep (claimable p) t.tasks)) 1) claimed_concurrently
  ok (
    taken p.id,
    with_event p.id claimed (codes "claimed") at
        (record t { tasks = update (claimable p) change t.tasks }),
  )

abbrev pub take_existing :
    Text → Text → Text → TaskTables → Option TaskRow → Result TaskError (Claim × TaskTables)
take_existing agent claim_id at t (some e) = ok (held e, t)
take_existing agent claim_id at t none =
    take_pending claim_id at t (earliest (λ r. r.node_id == agent && is_pending r.phase) t.tasks)

-- The body of `ClaimTask`.
unfoldable pub claim_tx : Text → Text → Text → TaskTables → Result TaskError (Claim × TaskTables)
claim_tx agent claim_id at t =
    take_existing agent claim_id at t
      (earliest (λ r. r.node_id == agent && is_active r.phase) t.tasks)

abbrev pub as_claim : Result TaskError TaskRow → Result TaskError (Option TaskRow)
as_claim (ok r) = ok (some r)
as_claim (err e) = err e

abbrev pub claim_answer :
    Result TaskError Claim × TaskTables → Result TaskError (Option TaskRow) × TaskTables
claim_answer (ok (held r), t) = (ok (some r), t)
claim_answer (ok idle, t) = (ok none, t)
claim_answer (ok (taken id), t) = (as_claim (get_task id t), t)
claim_answer (err e, t) = (err e, t)

-- `ClaimTask`
unfoldable pub claim_task :
    Text → Text → Text → TaskTables → Result TaskError (Option TaskRow) × TaskTables
claim_task agent claim_id at t = claim_answer (transact t (claim_tx agent claim_id at t))

-- `getTaskForAgent`
unfoldable pub get_task_for_agent : Text → Text → Text → TaskTables → Result TaskError TaskRow
get_task_for_agent agent task_id claim_id t = do
  r ← get_task task_id t
  require (r.node_id == agent) node_mismatch
  require (not (is_empty r.claim_id || not (r.claim_id == claim_id))) claim_mismatch
  ok r

-- What a call leaves to return: a row as it was read, or the row after the commit.
pub data Reply : Type 0 where
  as_read : TaskRow → Reply
  after_commit : Text → Reply

abbrev pub reply_answer :
    Result TaskError Reply × TaskTables → Result TaskError TaskRow × TaskTables
reply_answer (ok (as_read r), t) = (ok r, t)
reply_answer (ok (after_commit id), t) = (get_task id t, t)
reply_answer (err e, t) = (err e, t)

-- `UPDATE operation_runs SET state = …, checkpoint = … WHERE task_id = ?`
abbrev pub discover_runs : Text → Text → List RunRow → List RunRow
discover_runs id at [] = []
discover_runs id at (r ∷ rs) =
    (if r.task_id == id
      then record r { state = discovering; checkpoint = codes "discovering"; updated_at = at }
      else r)
    ∷ discover_runs id at rs

abbrev pub planning_started : TaskKind → Text → Text → TaskTables → TaskTables
planning_started operation_planning id at t = record t { runs = discover_runs id at t.runs }
planning_started _ id at t = t

abbrev pub acknowledge_phase :
    Text → Text → TaskTables → TaskRow → Phase → Result TaskError (Reply × TaskTables)
acknowledge_phase id at t r running = ok (as_read r, t)
acknowledge_phase id at t r cancel_requested = ok (as_read r, t)
acknowledge_phase id at t r claimed =
    let change =
      λ (x : TaskRow). record x { phase = running; acknowledged_at = some at; updated_at = at } in
    ok (
      after_commit id,
      planning_started r.kind id at (
          with_event id running (codes "acknowledged") at
            (record t { tasks = update (λ x. x.id == id) change t.tasks })),
    )
acknowledge_phase id at t r phase = err (invalid_transition phase)

-- The body of `AcknowledgeTask`.
unfoldable pub acknowledge_tx :
    Text → Text → Text → Text → TaskTables → Result TaskError (Reply × TaskTables)
acknowledge_tx agent id claim_id at t = do
  r ← get_task_for_agent agent id claim_id t
  acknowledge_phase id at t r r.phase

-- `AcknowledgeTask`
unfoldable pub acknowledge_task :
    Text → Text → Text → Text → TaskTables → Result TaskError TaskRow × TaskTables
acknowledge_task agent id claim_id at t =
    reply_answer (transact t (acknowledge_tx agent id claim_id at t))

-- The row and the event of a cancellation.
abbrev pub cancel_to :
    Text → Text → TaskTables → Phase → Option Text → Text → Result TaskError (Reply × TaskTables)
cancel_to id at t phase completed event_type =
    let change = λ (x : TaskRow). record x {
      phase = phase;
      cancel_requested_at = some at;
      completed_at = completed;
      updated_at = at;
    } in
    ok (
      after_commit id,
      with_event id phase event_type at
          (record t { tasks = update (λ x. x.id == id) change t.tasks }),
    )

abbrev pub cancel_phase :
    Text → Text → TaskTables → TaskRow → Phase → Result TaskError (Reply × TaskTables)
cancel_phase id at t r pending =
    cancel_to id at t canceled (some at) (codes "canceled_before_claim")
cancel_phase id at t r claimed =
    cancel_to id at t cancel_requested none (codes "cancellation_requested")
cancel_phase id at t r running =
    cancel_to id at t cancel_requested none (codes "cancellation_requested")
cancel_phase id at t r cancel_requested = ok (as_read r, t)
cancel_phase id at t r phase =
    if terminal_phase phase then ok (as_read r, t) else err (invalid_transition phase)

-- The body of `CancelTask`.
unfoldable pub cancel_tx : Text → Text → TaskTables → Result TaskError (Reply × TaskTables)
cancel_tx id at t = do r ← get_task id t; cancel_phase id at t r r.phase

-- `CancelTask`
unfoldable pub cancel_task : Text → Text → TaskTables → Result TaskError TaskRow × TaskTables
cancel_task id at t = reply_answer (transact t (cancel_tx id at t))
