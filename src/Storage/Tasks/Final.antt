-- ===== src/Storage/Tasks/Final.antt =====
-- app/internal/storage/sqlite/tasks.go: a task that has ended stays as it is.
use setpoint_ci_mirror.Base.{
  ◌≡◌, refl, sym, ap, ◌∙◌, Bool, true, false, not, ◌||◌, Option, none, some, Result, ok, err,
  >>=-eq-ok, require->>-ok, if_holds, if◌then◌else◌, ◌>>=◌, is_empty, ◌==◌,
}
use setpoint_ci_mirror.Base.Text.{Text, text_eq}
use setpoint_ci_mirror.Task.Item.{Failure}
use setpoint_ci_mirror.Task.Phase.{
  Phase, running, claimed, canceled, succeeded, failed, cancel_requested, terminal_phase, phase_beq,
}
use setpoint_ci_mirror.Storage.Tx.{transact}
use setpoint_ci_mirror.Storage.Tasks.{
  TaskRow, TaskResultRow, TaskTables, TaskError, Reply, as_read, after_commit, result_missing,
  result_conflict, read_task, found, get_task, get_task_for_agent, node_mismatch, claim_mismatch,
  acknowledge_phase, acknowledge_tx, acknowledge_task, cancel_phase, cancel_tx, cancel_task,
  reply_answer,
}
use setpoint_ci_mirror.Storage.Tasks.Complete.{
  Submission, report_again, read_result, complete_found, complete_tx, complete_task,
}

-- What a transaction leaves that returns, if at all, with the tables it was given.
abbrev IsSame : TaskTables → Result TaskError (Reply × TaskTables) → Type 0
IsSame t (ok (r, t')) = t' ≡ t
IsSame t (err e) = Unit

reply-keeps : (q : Result TaskError Reply) (t : TaskTables) → (reply_answer (q, t)).1 ≡ t
reply-keeps (ok (as_read r)) t = refl
reply-keeps (ok (after_commit id)) t = refl
reply-keeps (err e) t = refl

answered :
    (t : TaskTables) (q : Result TaskError (Reply × TaskTables))
    → IsSame t q
    → (reply_answer (transact t q)).1 ≡ t
answered t (err e) same = refl
answered t (ok (r, t')) same = reply-keeps (ok r) t' ∙ same

bind-IsSame :
    {A : Type 0} (t : TaskTables) (m : Result TaskError A)
    (k : A → Result TaskError (Reply × TaskTables))
    → ((a : A) → m ≡ ok a → IsSame t (k a))
    → IsSame t (m >>= k)
bind-IsSame t (ok a) k h = h a refl
bind-IsSame t (err e) k h = tt

read-task_for_agent :
    (agent id claim_id : Text) (t : TaskTables) (r x : TaskRow)
    → read_task id t.tasks ≡ some r
    → get_task_for_agent agent id claim_id t ≡ ok x
    → x ≡ r
unfolding get_task_for_agent
read-task_for_agent agent id claim_id t r x there h =
    let (y, got, h1) = >>=-eq-ok (get_task id t) _ h in
    let (a, h2) = require->>-ok (y.node_id == agent) node_mismatch _ h1 in
    let (b, h3) =
      require->>-ok (not (is_empty y.claim_id || not (y.claim_id == claim_id))) claim_mismatch _
        h2 in
    let same : ok y ≡ ok r = sym got ∙ ap found there in cc (same, h3)

acknowledge_phase-IsSame :
    (id at : Text) (t : TaskTables) (r : TaskRow) (phase : Phase)
    → terminal_phase phase ≡ true
    → IsSame t (acknowledge_phase id at t r phase)
unfolding terminal_phase
acknowledge_phase-IsSame id at t r running h = refl
acknowledge_phase-IsSame id at t r cancel_requested h = refl
acknowledge_phase-IsSame id at t r claimed h = absurd (cc)
acknowledge_phase-IsSame id at t r _ h = tt

cancel_phase-IsSame :
    (id at : Text) (t : TaskTables) (r : TaskRow) (phase : Phase)
    → terminal_phase phase ≡ true
    → IsSame t (cancel_phase id at t r phase)
unfolding terminal_phase
cancel_phase-IsSame id at t r canceled h = refl
cancel_phase-IsSame id at t r succeeded h = refl
cancel_phase-IsSame id at t r failed h = refl
cancel_phase-IsSame id at t r _ h = absurd (cc)

if-IsSame :
    (t : TaskTables) (b : Bool) (q q' : Result TaskError (Reply × TaskTables))
    → IsSame t q
    → IsSame t q'
    → IsSame t (if b then q else q')
if-IsSame t true q q' h g = h
if-IsSame t false q q' h g = g

report_again-IsSame :
    (t : TaskTables) (r : TaskRow) (phase : Phase) (digest : Text) (old : Option TaskResultRow)
    → IsSame t (report_again t r phase digest old)
report_again-IsSame t r phase digest none =
    if-IsSame t (phase_beq r.phase canceled) (ok (as_read r, t)) (err result_missing) refl tt
report_again-IsSame t r phase digest (some old) =
    if-IsSame t (not (old.digest == digest) || not (phase_beq r.phase phase)) (err result_conflict)
      (ok (as_read r, t)) tt refl

complete_found-IsSame :
    (id : Text) (submission : Submission) (at : Text) (t : TaskTables) (r : TaskRow)
    (encoded : Text × Option Failure)
    → terminal_phase r.phase ≡ true
    → IsSame t (complete_found id submission at t r encoded)
unfolding complete_found
complete_found-IsSame id submission at t r (result, failure) ended =
    if_holds (IsSame t) (terminal_phase r.phase) _ _
      (λ yes'.
        report_again-IsSame t r submission.phase (submission.digest_of result)
          (read_result id t.results))
      (λ no'. absurd (cc))

module _ (t : TaskTables) (id : Text) (r : TaskRow) (there : read_task id t.tasks ≡ some r)
    (ended : terminal_phase r.phase ≡ true) where
  ended_too : (x : TaskRow) → x ≡ r → terminal_phase x.phase ≡ true
  ended_too x same = ap (λ (y : TaskRow). terminal_phase y.phase) same ∙ ended

  -- A task in a terminal phase is final: whatever agents and operators ask of it, no acknowledgement,
  -- no cancellation and no report without an operation result changes any table.
  pub terminal-final :
      (agent claim_id at : Text) (submission : Submission)
      → ((acknowledge_task agent id claim_id at t).1 ≡ t)
        × ((cancel_task id at t).1 ≡ t)
        × ((complete_task agent id submission at t).1 ≡ t)
  unfolding acknowledge_task acknowledge_tx cancel_task cancel_tx complete_task complete_tx
  terminal-final agent claim_id at submission = (
    answered t _ (
        bind-IsSame t (get_task_for_agent agent id claim_id t) _ (λ x h.
          acknowledge_phase-IsSame id at t x x.phase
            (ended_too x (read-task_for_agent agent id claim_id t r x there h)))),
    answered t _ (
        bind-IsSame t (get_task id t) _ (λ x h.
          let same : ok x ≡ ok r = sym h ∙ ap found there in
          cancel_phase-IsSame id at t x x.phase (ended_too x (cc same)))),
    answered t _ (
        bind-IsSame t (get_task_for_agent agent id submission.claim_id t) _ (λ x h.
          bind-IsSame t submission.encoded _ (λ encoded g.
            complete_found-IsSame id submission at t x encoded
              (ended_too x (read-task_for_agent agent id submission.claim_id t r x there h))))),
  )
