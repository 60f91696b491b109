-- ===== src/Storage/Runs/Planned.antt =====
-- What a planning result that was stored (app/internal/storage/sqlite/operation_runs.go) has done.
use setpoint_ci_mirror.Base.{
  ℕ, ◌≡◌, refl, sym, ap, ◌∙◌, subst, true, false, not, ◌||◌, ◌⊎◌, inl, inr, Option, none, some,
  List, [], ◌∷◌, map, Result, ok, err, IfOk-ok, bind-IfOk, require-IfOk, keep, replace, length, eqb,
  contains, ◌==◌, Bool-cases, arith,
}
use setpoint_ci_mirror.Base.Members.{IsDistinct}
use setpoint_ci_mirror.Base.Text.{Text, text_eq, text_beq_iff}
use setpoint_ci_mirror.Operation.State.{state_eq, canceled_before_apply}
use setpoint_ci_mirror.Operation.Definition.{Plan, PlanStep}
use setpoint_ci_mirror.Operation.Planning.{PlanningResult}
use setpoint_ci_mirror.OperationRun.{OperationRun}
use setpoint_ci_mirror.OperationRun.Stages.{
  StageError, execution_stages, stages_for, run_participants,
}
use setpoint_ci_mirror.OperationRun.Sequence.{IsSequence, execution_stages-IsSequence}
use setpoint_ci_mirror.Storage.Runs.Tables.{RunTables}
use setpoint_ci_mirror.Storage.Runs.Plan.{
  of_task, read_run_of, frozen, check_frozen, planned_run, takes_result, apply_planning_result,
}

-- What a stored planning result has done to its run
pub record IsPlanned (task : Text) (result : PlanningResult) (at : ℕ) (t t' : RunTables)
    : Type 0 where
  pub run : OperationRun
  pub known : read_run_of task t.runs ≡ some run
  pub open_ :
      (result.state == canceled_before_apply || not (run.state == canceled_before_apply)) ≡ true
  pub stored : read_run_of task t'.runs ≡ some (planned_run result at run)
  pub staged :
      (result.plan ≡ none)
      ⊎ ((stages : List PlanStep) × (execution_stages (planned_run result at run) ≡ ok stages)
          × IsSequence (planned_run result at run) stages)
  pub others : keep (λ r. not (of_task task r)) t'.runs ≡ keep (λ r. not (of_task task r)) t.runs
  pub journal : t'.journal ≡ t.journal

no_rows :
    (task : Text) (result : PlanningResult) (runs : List OperationRun)
    → contains task (map (λ (r : OperationRun). r.task_id) runs) ≡ false
    → keep (takes_result task result) runs ≡ []
no_rows task result [] h = refl
no_rows task result (r ∷ rs) h = ground (arith, no_rows task result rs (ground arith))

-- The one run of a task, where a row takes the result
taken :
    (task : Text) (result : PlanningResult) (runs : List OperationRun)
    → IsDistinct (map (λ (r : OperationRun). r.task_id) runs)
    → length (keep (takes_result task result) runs) ≡ 1
    → (run : OperationRun) × (read_run_of task runs ≡ some run)
      × (takes_result task result run ≡ true)
taken task result [] d h = cc
taken task result (r ∷ rs) d h = elim (Bool-cases (of_task task r)) [
  | inl mine ↦
      let same : r.task_id ≡ task = (text_beq_iff r.task_id task).0 mine in
      let none' =
        no_rows task result rs
          (ap (λ id. contains id (map (λ (r : OperationRun). r.task_id) rs)) (sym same) ∙ d.0) in
      (r, ground (arith, mine), ground (arith, mine, none'))
  | inr other ↦
      let (run, known, takes) = taken task result rs d.1 (ground (arith, other)) in
      (run, ground (arith, other, known), takes)
]

read-replaced :
    (task : Text) (result : PlanningResult) (at : ℕ) (runs : List OperationRun) {run : OperationRun}
    → read_run_of task runs ≡ some run
    → takes_result task result run ≡ true
    → read_run_of task (replace (takes_result task result) (planned_run result at) runs)
      ≡ some (planned_run result at run)
read-replaced task result at [] h k = cc
read-replaced task result at (r ∷ rs) {run} h k = elim (Bool-cases (of_task task r)) [
  | inl mine ↦
      let same : r ≡ run = cc (rw mine at h) in
      let takes : takes_result task result r ≡ true = ap (takes_result task result) same ∙ k in
      ground (arith, mine, takes, same)
  | inr other ↦
      let rest = read-replaced task result at rs (rw other at h) k in ground (arith, other, rest)
]

others-replaced :
    (task : Text) (result : PlanningResult) (at : ℕ) (runs : List OperationRun)
    → keep
        (λ r. not (of_task task r))
        (replace (takes_result task result) (planned_run result at) runs)
      ≡ keep (λ r. not (of_task task r)) runs
others-replaced task result at [] = refl
others-replaced task result at (r ∷ rs) = elim (Bool-cases (of_task task r)) [
  | inl mine ↦ ground (arith, mine, others-replaced task result at rs)
  | inr other ↦ ground (arith, other, others-replaced task result at rs)
]

-- The stages depend on the specification and the plan of a run alone.
stages-planned :
    (result : PlanningResult) (at : ℕ) (run : OperationRun)
    → execution_stages (record run { plan = result.plan })
      ≡ execution_stages (planned_run result at run)
unfolding execution_stages
stages-planned result at run = for_each (run_participants run)
  where
    for_each :
        (ps : List Text)
        → stages_for (record run { plan = result.plan }) ps
          ≡ stages_for (planned_run result at run) ps
    for_each [] = refl
    for_each (p ∷ []) = refl
    for_each (p ∷ q ∷ ps) = refl

frozen-ok :
    (r : Result StageError (List PlanStep)) {u : Unit}
    → frozen r ≡ ok u
    → (stages : List PlanStep) × (r ≡ ok stages)
frozen-ok (ok stages) h = (stages, refl)
frozen-ok (err e) h = cc

check_frozen-staged :
    (result : PlanningResult) (at : ℕ) (run : OperationRun) (o : Option Plan) {u : Unit}
    → result.plan ≡ o
    → check_frozen o (some run) ≡ ok u
    → (result.plan ≡ none)
      ⊎ ((stages : List PlanStep) × (execution_stages (planned_run result at run) ≡ ok stages)
          × IsSequence (planned_run result at run) stages)
check_frozen-staged result at run none h checked = inl h
check_frozen-staged result at run (some plan) h checked =
    let (stages, made) = frozen-ok (execution_stages (record run { plan = some plan })) checked in
    let here : execution_stages (planned_run result at run) ≡ ok stages =
      sym (stages-planned result at run)
      ∙ ap (λ p. execution_stages (record run { plan = p })) h
      ∙ made in
    inr (stages, here, execution_stages-IsSequence (planned_run result at run) stages here)

-- Where each run has its task to itself, a planning result that is stored goes to the one run of its
-- task, which is not canceled or canceled by the result, and to no other run, and leaves the journal; if
-- it has a plan, the stored run has stages, at least one, with different IDs, of which each has an executor that is a participant, up to the spaces around it,
-- preconditions that were observed, and a verified owner where it moves the owner of an address.
pub apply_planning_result-IsPlanned :
    (task : Text) (result : PlanningResult) (at : ℕ) (t t' : RunTables)
    → IsDistinct (map (λ (r : OperationRun). r.task_id) t.runs)
    → apply_planning_result task result at t ≡ ok t'
    → IsPlanned task result at t t'
unfolding apply_planning_result
apply_planning_result-IsPlanned task result at t t' apart h =
    IfOk-ok (IsPlanned task result at t) (apply_planning_result task result at t)
      (bind-IfOk (IsPlanned task result at t) (check_frozen result.plan (read_run_of task t.runs)) _
        (λ u checked.
          require-IfOk (IsPlanned task result at t)
            (eqb (length (keep (takes_result task result) t.runs)) 1) _ _
            (λ one.
              let (run, known, takes) = taken task result t.runs apart (ground arith) in
              record {
                run = run;
                known = known;
                open_ = ground arith;
                stored = read-replaced task result at t.runs known takes;
                staged =
                    check_frozen-staged result at run result.plan refl
                      (subst (λ o. check_frozen result.plan o ≡ ok u) known checked);
                others = others-replaced task result at t.runs;
                journal = refl;
              })))
      h
