-- ===== src/Storage/Runs/Canceled.antt =====
-- What `CancelOperationRun` (app/internal/storage/sqlite/operation_runs.go) leaves behind.
use setpoint_ci_mirror.Base.{
  ℕ, ◌≡◌, refl, sym, ap, ◌∙◌, subst, Bool, true, ◌||◌, ◌⊎◌, inl, inr, Option, none, some, List, [],
  ◌∷◌, Result, ok, err, ◌>>=◌, IfOk, IfOk-map, IfOk-ok, bind-IfOk, require-IfOk, find, if_holds,
  ◌==◌, Bool-cases, arith,
}
use setpoint_ci_mirror.Base.Members.{find-some}
use setpoint_ci_mirror.Base.Text.{Text, codes, text_eq, text_beq_iff}
use setpoint_ci_mirror.Operation.State.{
  state_eq, state_beq_iff, can_transition, canceled_before_apply,
}
use setpoint_ci_mirror.OperationRun.{OperationRun}
use setpoint_ci_mirror.Task.Phase.{
  Phase, pending, claimed, running, cancel_requested, canceled, succeeded, failed, other_phase,
  terminal_phase,
}
use setpoint_ci_mirror.Storage.Tx.{transact}
use setpoint_ci_mirror.Storage.Tasks.{TaskRow, read_task, update}
use setpoint_ci_mirror.Storage.Runs.Tables.{RunTables, read_run, found_run, get_operation_run}
use setpoint_ci_mirror.Storage.Runs.Journal.{Codec, CodecLaws, rows_of, newest}
use setpoint_ci_mirror.Storage.Runs.Invariant.{IsSound}
use setpoint_ci_mirror.Storage.Runs.Cancel.{
  CancelTables, CancelTexts, CancelError, from_runs, is_containment, task_moved, run_task,
  cancel_run_task, check_tail, finish_cancel, cancel_active, cancel_run_tx, cancel_answered,
  cancel_operation_run, stamp,
}
use setpoint_ci_mirror.Storage.Runs.Settled.{IsEnded, IsContained, Safe, Settled, finish-Settled}

-- A task that has ended or was asked to
abbrev pub is_quiet : Phase → Bool
is_quiet cancel_requested = true
is_quiet phase = terminal_phase phase

abbrev pub IsQuiet : Text → List TaskRow → Type 0
IsQuiet id tasks = (r : TaskRow) × (read_task id tasks ≡ some r) × (is_quiet r.phase ≡ true)

-- How a cancellation of the run `id` may end: it fails and changes nothing, it finds the run canceled,
-- or it ends or holds the run.
abbrev pub Judged :
    Codec → Text → CancelTables → Result CancelError OperationRun × CancelTables → Type 0
Judged codec id t (err e, t') = t' ≡ t
Judged codec id t (ok r, t') =
    (run : OperationRun) × (read_run id t.stored.runs ≡ some run)
    × (((run.state ≡ canceled_before_apply) × (r ≡ run) × (t' ≡ t))
        ⊎ ((IsEnded run r ⊎ IsContained run r)
            × (read_run id t'.stored.runs ≡ some r)
            × IsQuiet run.task_id t'.tasks
            × Safe codec t.stored t'.stored))

found-some :
    (o : Option OperationRun) {run : OperationRun} → from_runs (found_run o) ≡ ok run → o ≡ some run
found-some none h = cc
found-some (some r) h = cc

read-id :
    (id : Text) (t : RunTables) {run : OperationRun} → read_run id t.runs ≡ some run → run.id ≡ id
read-id id t {run} h =
    (text_beq_iff run.id id).0 (find-some (λ (r : OperationRun). r.id == id) run t.runs h).1

find-update :
    (p : TaskRow → Bool) (change : TaskRow → TaskRow) (rows : List TaskRow) {r : TaskRow}
    → ((x : TaskRow) → p (change x) ≡ p x)
    → find p rows ≡ some r
    → find p (update p change rows) ≡ some (change r)
unfolding update
find-update p change [] keeps h = cc
find-update p change (x ∷ xs) keeps h = elim (Bool-cases (p x)) [
  | inl e ↦ ground (arith, keeps x)
  | inr e ↦ ground (arith, find-update p change xs keeps (rw e at h))
]

module _ (texts : CancelTexts) (laws : CodecLaws texts.codec) (at : ℕ) (run : OperationRun) where
  moved-IsQuiet :
      (t : CancelTables) (r : TaskRow) (phase : Phase) (completed : Option Text) (event : Text)
      → read_task run.task_id t.tasks ≡ some r
      → is_quiet phase ≡ true
      → IsQuiet run.task_id (task_moved r.id (stamp texts at run) phase completed event t).tasks
  moved-IsQuiet t r phase completed event there quiet =
      let change = λ (x : TaskRow). record x {
        phase = phase;
        cancel_requested_at = some (stamp texts at run);
        completed_at = completed;
        updated_at = stamp texts at run;
      } in
      let is : r.id ≡ run.task_id =
        (text_beq_iff r.id run.task_id).0
          (find-some (λ (x : TaskRow). x.id == run.task_id) r t.tasks there).1 in
      (
        change r,
        subst
            (λ id.
              read_task run.task_id (update (λ x. x.id == id) change t.tasks) ≡ some (change r))
            (sym is) (find-update (λ x. x.id == run.task_id) change t.tasks (λ x. refl) there),
        quiet,
      )

  abbrev Asked : CancelTables → Text × CancelTables → Type 0
  Asked t p = (p.1.stored ≡ t.stored) × IsQuiet run.task_id p.1.tasks

  cancel_run_task-Asked :
      (t : CancelTables) (r : TaskRow) (phase : Phase)
      → read_task run.task_id t.tasks ≡ some r
      → r.phase ≡ phase
      → IfOk (Asked t) (cancel_run_task texts at run t r phase)
  unfolding terminal_phase
  cancel_run_task-Asked t r pending there h = (
    refl,
    moved-IsQuiet t r canceled (some (stamp texts at run)) (codes "canceled_before_claim") there
        refl,
  )
  cancel_run_task-Asked t r claimed there h =
      (refl, moved-IsQuiet t r cancel_requested none (codes "cancellation_requested") there refl)
  cancel_run_task-Asked t r running there h =
      (refl, moved-IsQuiet t r cancel_requested none (codes "cancellation_requested") there refl)
  cancel_run_task-Asked t r cancel_requested there h = (refl, (r, there, ap is_quiet h))
  cancel_run_task-Asked t r canceled there h = (refl, (r, there, ap is_quiet h))
  cancel_run_task-Asked t r succeeded there h = (refl, (r, there, ap is_quiet h))
  cancel_run_task-Asked t r failed there h = (refl, (r, there, ap is_quiet h))
  cancel_run_task-Asked t r (other_phase name) there h = tt

  task-some : (o : Option TaskRow) {r : TaskRow} → run_task o ≡ ok r → o ≡ some r
  task-some none h = cc
  task-some (some r) h = cc

  -- What a cancellation that went through leaves
  abbrev Final : CancelTables → CancelTables → Type 0
  Final t t' =
      Safe texts.codec t.stored t'.stored
      × ((r : OperationRun) × (read_run run.id t'.stored.runs ≡ some r)
          × (IsEnded run r ⊎ IsContained run r))
      × IsQuiet run.task_id t'.tasks

  cancel_active-Final :
      (t : CancelTables)
      → IsSound texts.codec t.stored
      → read_run run.id t.stored.runs ≡ some run
      → IfOk (Final t) (cancel_active texts at run t)
  unfolding cancel_active
  cancel_active-Final t sound known =
      let tail = newest (rows_of run.id t.stored.journal) in
      require-IfOk (Final t) (is_containment run || can_transition run.state canceled_before_apply)
        _ _
        (λ may. bind-IfOk (Final t) (run_task (read_task run.task_id t.tasks)) _ (λ r there.
          bind-IfOk (Final t) (cancel_run_task texts at run t r r.phase) _ (λ moved e.
            bind-IfOk (Final t) (check_tail texts at run tail) _ (λ u level.
              let (same, quiet) =
                IfOk-ok (Asked t) (cancel_run_task texts at run t r r.phase)
                  (cancel_run_task-Asked t r r.phase
                    (task-some (read_task run.task_id t.tasks) there) refl)
                  e in
              let P : OperationRun → Type 0 = λ r. IsEnded run r ⊎ IsContained run r in
              let done =
                finish-Settled texts laws at run moved.1
                  (subst (IsSound texts.codec) (sym same) sound)
                  (ap (λ (s : RunTables). read_run run.id s.runs) same ∙ known) moved.0 may in
              let at_tail =
                subst
                  (λ (s : RunTables). IfOk (Settled texts laws at run P moved.1) (
                    finish_cancel texts at run moved.0 (newest (rows_of run.id s.journal)) moved.1))
                  same done in
              IfOk-map (Settled texts laws at run P moved.1) (Final t)
                (finish_cancel texts at run moved.0 tail moved.1)
                (λ t' s. (
                  subst (λ v. Safe texts.codec v t'.stored) same s.1,
                  s.2,
                  subst (IsQuiet run.task_id) (sym s.0) quiet,
                ))
                at_tail))))

module _ (texts : CancelTexts) (laws : CodecLaws texts.codec) (at : ℕ) (id : Text)
    (t : CancelTables) where
  -- The tables that the transaction may commit
  abbrev Committed : Option OperationRun × CancelTables → Type 0
  Committed p = Judged texts.codec id t (cancel_answered id (ok p.0, p.1))

  active-Committed :
      (run : OperationRun)
      → IsSound texts.codec t.stored
      → read_run id t.stored.runs ≡ some run
      → IfOk Committed (cancel_active texts at run t >>= λ t'. ok (none, t'))
  active-Committed run sound known =
      let is = read-id id t.stored known in
      let known' : read_run run.id t.stored.runs ≡ some run =
        ap (λ i. read_run i t.stored.runs) is ∙ known in
      bind-IfOk Committed (cancel_active texts at run t) _ (λ t' e.
        let (sound', (r, there, moved), quiet) =
          IfOk-ok (Final texts laws at run t) (cancel_active texts at run t)
            (cancel_active-Final texts laws at run t sound known') e in
        let here : read_run id t'.stored.runs ≡ some r =
          ap (λ i. read_run i t'.stored.runs) (sym is) ∙ there in
        subst (λ o. Judged texts.codec id t (from_runs (found_run o), t')) (sym here)
          (run, known, inr (moved, here, quiet, sound')))

  tx-Committed : IsSound texts.codec t.stored → IfOk Committed (cancel_run_tx texts at id t)
  unfolding cancel_run_tx
  tx-Committed sound = bind-IfOk Committed (from_runs (get_operation_run id t.stored)) _ (λ run e.
      let known = found-some (read_run id t.stored.runs) e in
      if_holds (λ (o : Result CancelError (Option OperationRun × CancelTables)). IfOk Committed o)
        (run.state == canceled_before_apply) (ok (some run, t))
        (cancel_active texts at run t >>= λ t'. ok (none, t'))
        (λ over.
          (run, known, inl ((state_beq_iff run.state canceled_before_apply).0 over, refl, refl)))
        (λ active. active-Committed run sound known))

  answered-Judged :
      (o : Result CancelError (Option OperationRun × CancelTables))
      → IfOk Committed o
      → Judged texts.codec id t (cancel_answered id (transact t o))
  answered-Judged (ok (a, t')) h = h
  answered-Judged (err e) h = refl

  -- On sound tables, a cancellation that fails changes no table, and one of a canceled run returns it and
  -- changes none. Any other leaves sound tables with every old run, later on, the task of the run ended or
  -- asked to end, and the run, which is returned with its facts: canceled, by an allowed transition, where
  -- nothing that a participant applied is left; else, while it creates restore points, in its state with
  -- its cancellation requested.
  pub cancel_operation_run-Judged :
      IsSound texts.codec t.stored → Judged texts.codec id t (cancel_operation_run texts at id t)
  unfolding cancel_operation_run
  cancel_operation_run-Judged sound =
      answered-Judged (cancel_run_tx texts at id t) (tx-Committed sound)
