-- ===== src/Storage/Runs/Facts.antt =====
-- The execution facts of a run: how app/internal/storage/sqlite/operation_runs.go merges an update
-- into the stored ones, and what it requires of them. `reflect.DeepEqual` is the equality of
-- Operation/Equal.
use setpoint_ci_mirror.Base.{
  ℕ, Bool, true, false, not, ◌&&◌, ◌||◌, Option, none, some, List, [], ◌∷◌, ◌++◌, Result, ok, err,
  ◌>>=◌, ◌>>◌, require, eqb, ltb, ◌+◌, Eq, if◌then◌else◌, ◌==◌, is_empty,
}
use setpoint_ci_mirror.Base.Text.{Text, codes, text_eq}
use setpoint_ci_mirror.Operation.Equal.{
  restore_point_eq, apply_result_eq, verification_eq, rollback_result_eq,
}
use setpoint_ci_mirror.Operation.RestorePoint.{RestorePoint, validate_restore_point}
use setpoint_ci_mirror.OperationRun.{StageExecutionSnapshot, ExecutionSnapshot, no_facts}
use setpoint_ci_mirror.Storage.Runs.Tables.{
  RunError, fact_rewritten, stage_identity, stage_time_rewritten, bad_restore_point,
  apply_needs_restore_point, verification_needs_apply, rollback_needs_both,
  rollback_verification_needs_rollback, stages_unordered,
}

-- `mergeOperationExecutionFact`
abbrev pub merge_fact :
    {A : Type 0} → Eq A → Option A → Option A → Text → Result RunError (Option A)
merge_fact e current none name = ok current
merge_fact e none (some update) name = ok (some update)
merge_fact e (some current) (some update) name =
    if e.beq current update then ok (some current) else err (fact_rewritten name)

-- `mergeStageTime`
abbrev pub merge_stage_time : ℕ → ℕ → Result RunError ℕ
merge_stage_time current update =
    if eqb update 0
    then ok current
    else if not (eqb current 0) && not (eqb current update)
    then err stage_time_rewritten
    else ok update

-- `mergeStageExecutionSnapshot`, in the stage that has the update's index
unfoldable pub merge_stage :
    StageExecutionSnapshot → StageExecutionSnapshot → Result RunError StageExecutionSnapshot
merge_stage current update = do
  require
      (current.stage_id == update.stage_id && current.executor_node_id == update.executor_node_id)
      stage_identity
  point ←
      merge_fact restore_point_eq current.restore_point update.restore_point
        (codes "stage restore point")
  apply ← merge_fact apply_result_eq current.apply update.apply (codes "stage Apply result")
  check ←
      merge_fact verification_eq current.verification update.verification
        (codes "stage verification")
  undo ←
      merge_fact rollback_result_eq current.rollback update.rollback (codes "stage rollback result")
  undo_check ←
      merge_fact verification_eq current.rollback_verification update.rollback_verification
        (codes "stage rollback verification")
  point_at ← merge_stage_time current.restore_point_at update.restore_point_at
  apply_at ← merge_stage_time current.apply_at update.apply_at
  check_at ← merge_stage_time current.verification_at update.verification_at
  undo_at ← merge_stage_time current.rollback_at update.rollback_at
  undo_check_at ← merge_stage_time current.rollback_verification_at update.rollback_verification_at
  ok (record current {
    restore_point_at = point_at;
    apply_at = apply_at;
    verification_at = check_at;
    rollback_at = undo_at;
    rollback_verification_at = undo_check_at;
    restore_point = point;
    apply = apply;
    verification = check;
    rollback = undo;
    rollback_verification = undo_check;
  })

abbrev pub in_rest :
    StageExecutionSnapshot
    → Option (Result RunError (List StageExecutionSnapshot))
    → Option (Result RunError (List StageExecutionSnapshot))
in_rest s none = none
in_rest s (some r) = some (r >>= λ merged. ok (s ∷ merged))

-- The loop over the stages: `none` when no stage has the update's index.
unfoldable pub merge_known :
    List StageExecutionSnapshot
    → StageExecutionSnapshot
    → Option (Result RunError (List StageExecutionSnapshot))
merge_known [] update = none
merge_known (s ∷ ss) update =
    let rest = merge_known ss update in
    if eqb s.stage_index update.stage_index
    then some (merge_stage s update >>= λ merged. ok (merged ∷ ss))
    else in_rest s rest

-- `sort.Slice` by the stage index; stored stages have different indices, so that its result does not
-- depend on how it treats equal ones.
unfoldable pub insert_stage :
    StageExecutionSnapshot → List StageExecutionSnapshot → List StageExecutionSnapshot
insert_stage s [] = s ∷ []
insert_stage s (u ∷ us) =
    let rest = insert_stage s us in if ltb u.stage_index s.stage_index then u ∷ rest else s ∷ u ∷ us

unfoldable pub sort_stages : List StageExecutionSnapshot → List StageExecutionSnapshot
unfolding insert_stage
sort_stages [] = []
sort_stages (s ∷ ss) = insert_stage s (sort_stages ss)

abbrev pub or_new :
    List StageExecutionSnapshot
    → StageExecutionSnapshot
    → Option (Result RunError (List StageExecutionSnapshot))
    → Result RunError (List StageExecutionSnapshot)
or_new stages update none = ok (sort_stages (stages ++ (update ∷ [])))
or_new stages update (some r) = r

-- `mergeStageExecutionSnapshot`
unfoldable pub merge_into :
    List StageExecutionSnapshot
    → StageExecutionSnapshot
    → Result RunError (List StageExecutionSnapshot)
merge_into stages update = or_new stages update (merge_known stages update)

unfoldable pub merge_stages :
    List StageExecutionSnapshot
    → List StageExecutionSnapshot
    → Result RunError (List StageExecutionSnapshot)
merge_stages stages [] = ok stages
merge_stages stages (u ∷ us) = merge_into stages u >>= λ merged. merge_stages merged us

abbrev pub is_none : {A : Type 0} → Option A → Bool
is_none none = true
is_none (some a) = false

abbrev pub is_some : {A : Type 0} → Option A → Bool
is_some o = not (is_none o)

abbrev pub is_factless : ExecutionSnapshot → Bool
is_factless s =
    is_none s.restore_point
    && is_none s.apply
    && is_none s.verification
    && is_none s.rollback
    && is_none s.rollback_verification
    && is_empty s.stages

unfoldable pub merge_facts :
    ExecutionSnapshot → ExecutionSnapshot → Result RunError ExecutionSnapshot
merge_facts current update = do
  point ←
      merge_fact restore_point_eq current.restore_point update.restore_point (codes "restore point")
  apply ← merge_fact apply_result_eq current.apply update.apply (codes "Apply result")
  check ← merge_fact verification_eq current.verification update.verification (codes "verification")
  undo ← merge_fact rollback_result_eq current.rollback update.rollback (codes "rollback result")
  undo_check ←
      merge_fact verification_eq current.rollback_verification update.rollback_verification
        (codes "rollback verification")
  stages ← merge_stages current.stages update.stages
  ok (record {
    restore_point = point;
    apply = apply;
    verification = check;
    rollback = undo;
    rollback_verification = undo_check;
    stages = stages;
  })

abbrev pub or_no_facts : Option ExecutionSnapshot → ExecutionSnapshot
or_no_facts none = no_facts
or_no_facts (some s) = s

-- `mergeOperationExecutionSnapshot`
unfoldable pub merge_snapshot :
    Option ExecutionSnapshot → ExecutionSnapshot → Result RunError (Option ExecutionSnapshot)
merge_snapshot current update =
    if is_none current && is_factless update
    then ok none
    else (merge_facts (or_no_facts current) update >>= λ merged. ok (some merged))

abbrev pub point_holds : Option RestorePoint → ℕ → Result RunError Unit
point_holds none at = ok tt
point_holds (some p) at = elim (validate_restore_point p at) [
  | ok _ ↦ ok tt
  | err e ↦ err (bad_restore_point e)
]

-- The loop over the stages
unfoldable pub validate_stages : ℕ → List StageExecutionSnapshot → Result RunError Unit
validate_stages index [] = ok tt
validate_stages index (s ∷ ss) = do
  require (eqb s.stage_index index && not (is_empty s.stage_id || is_empty s.executor_node_id))
      stages_unordered
  require (not (is_some s.apply && is_none s.restore_point)) apply_needs_restore_point
  require (not (is_some s.verification && is_none s.apply)) verification_needs_apply
  require (not (is_some s.rollback && (is_none s.restore_point || is_none s.apply)))
      rollback_needs_both
  require (not (is_some s.rollback_verification && is_none s.rollback))
      rollback_verification_needs_rollback
  validate_stages (index + 1) ss

-- `validateOperationExecutionSnapshot`
unfoldable pub validate_snapshot : Option ExecutionSnapshot → ℕ → Result RunError Unit
validate_snapshot none at = ok tt
validate_snapshot (some s) at = do
  point_holds s.restore_point at
  require (not (is_some s.apply && is_none s.restore_point)) apply_needs_restore_point
  require (not (is_some s.verification && is_none s.apply)) verification_needs_apply
  require (not (is_some s.rollback && (is_none s.restore_point || is_none s.apply)))
      rollback_needs_both
  require (not (is_some s.rollback_verification && is_none s.rollback))
      rollback_verification_needs_rollback
  validate_stages 0 s.stages
