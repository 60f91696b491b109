-- ===== src/Storage/Runs/Durable.antt =====
-- The merges of app/internal/storage/sqlite/operation_runs.go never lose or change a stored fact.
use setpoint_ci_mirror.Base.{
  ◌≡◌, true, ◌&&◌, Option, none, some, List, [], ◌∷◌, ◌++◌, Result, ok, err, ◌>>=◌, IfOk, bind-IfOk,
  IfOk-ok, >>=-eq-ok, subst, eqb, if_holds, arith,
}
use setpoint_ci_mirror.Base.Text.{codes, text_eq}
use setpoint_ci_mirror.Operation.Equal.{
  restore_point_eq, apply_result_eq, verification_eq, rollback_result_eq,
}
use setpoint_ci_mirror.OperationRun.{StageExecutionSnapshot, ExecutionSnapshot, no_facts}
use setpoint_ci_mirror.Storage.Runs.Tables.{RunError}
use setpoint_ci_mirror.Storage.Runs.Facts.{
  merge_fact, merge_stage, merge_known, in_rest, is_none, is_factless, or_new, merge_into,
  merge_stages, merge_facts, merge_snapshot, or_no_facts,
}
use setpoint_ci_mirror.Storage.Runs.Kept.{
  KeepsStages, KeepsFacts, StageKeeps-refl, KeepsStages-refl, KeepsStages-trans, KeepsFacts-refl,
}
use setpoint_ci_mirror.Storage.Runs.Stages.{
  merge_fact-keeps, ok-injective, merge_stage-keeps, mem-sort, mem-init, keeps_head, keeps_tail,
}

-- The stages after an update, where there is one.
abbrev IfKnown :
    List StageExecutionSnapshot → Option (Result RunError (List StageExecutionSnapshot)) → Type 0
IfKnown stages none = Unit
IfKnown stages (some r) = IfOk (KeepsStages stages) r

further :
    (s : StageExecutionSnapshot) (ss : List StageExecutionSnapshot)
    (rest : Option (Result RunError (List StageExecutionSnapshot)))
    → IfKnown ss rest
    → IfKnown (s ∷ ss) (in_rest s rest)
further s ss none h = tt
further s ss (some (ok us)) h = keeps_tail s ss us h
further s ss (some (err e)) h = tt

merge_known-keeps :
    (stages : List StageExecutionSnapshot) (update : StageExecutionSnapshot)
    → IfKnown stages (merge_known stages update)
unfolding merge_known
merge_known-keeps [] update = tt
merge_known-keeps (s ∷ ss) update =
    if_holds (λ (o : Option (Result RunError (List StageExecutionSnapshot))). IfKnown (s ∷ ss) o)
      (eqb s.stage_index update.stage_index)
      (some (merge_stage s update >>= λ merged. ok (merged ∷ ss)))
      (in_rest s (merge_known ss update))
      (λ same.
        bind-IfOk (KeepsStages (s ∷ ss)) (merge_stage s update) _
          (λ u e. keeps_head s u ss (merge_stage-keeps s update e)))
      (λ other. further s ss (merge_known ss update) (merge_known-keeps ss update))

settled :
    (stages : List StageExecutionSnapshot) (update : StageExecutionSnapshot)
    (known : Option (Result RunError (List StageExecutionSnapshot)))
    → IfKnown stages known
    → IfOk (KeepsStages stages) (or_new stages update known)
settled stages update none h = λ x m.
    (x, mem-sort x (stages ++ (update ∷ [])) (mem-init x stages (update ∷ []) m), StageKeeps-refl x)
settled stages update (some r) h = h

merge_into-keeps :
    (stages : List StageExecutionSnapshot) (update : StageExecutionSnapshot)
    → IfOk (KeepsStages stages) (merge_into stages update)
unfolding merge_into
merge_into-keeps stages update =
    settled stages update (merge_known stages update) (merge_known-keeps stages update)

after :
    (old between : List StageExecutionSnapshot) (r : Result RunError (List StageExecutionSnapshot))
    → KeepsStages old between
    → IfOk (KeepsStages between) r
    → IfOk (KeepsStages old) r
after old between (ok new) h k = KeepsStages-trans old between new h k
after old between (err e) h k = tt

merge_stages-keeps :
    (stages updates : List StageExecutionSnapshot)
    → IfOk (KeepsStages stages) (merge_stages stages updates)
unfolding merge_stages
merge_stages-keeps stages [] = KeepsStages-refl stages
merge_stages-keeps stages (u ∷ us) =
    bind-IfOk (KeepsStages stages) (merge_into stages u) _ (λ merged e.
      let first =
        IfOk-ok (KeepsStages stages) (merge_into stages u) (merge_into-keeps stages u) e in
      after stages merged (merge_stages merged us) first (merge_stages-keeps merged us))

merge_facts-keeps :
    (old update : ExecutionSnapshot) {new : ExecutionSnapshot}
    → merge_facts old update ≡ ok new
    → KeepsFacts old new
unfolding merge_facts
merge_facts-keeps old update h =
    let (_, a, h1) =
      >>=-eq-ok
        (merge_fact restore_point_eq old.restore_point update.restore_point (codes "restore point"))
        _ h in
    let (_, b, h2) =
      >>=-eq-ok (merge_fact apply_result_eq old.apply update.apply (codes "Apply result")) _ h1 in
    let (_, c, h3) =
      >>=-eq-ok
        (merge_fact verification_eq old.verification update.verification (codes "verification")) _
        h2 in
    let (_, d, h4) =
      >>=-eq-ok
        (merge_fact rollback_result_eq old.rollback update.rollback (codes "rollback result")) _
        h3 in
    let (_, f, h5) =
      >>=-eq-ok
        (merge_fact verification_eq old.rollback_verification update.rollback_verification
          (codes "rollback verification"))
        _ h4 in
    let (_, ss, made) = >>=-eq-ok (merge_stages old.stages update.stages) _ h5 in
    subst (KeepsFacts old) (ok-injective made) (record {
      point = merge_fact-keeps restore_point_eq old.restore_point update.restore_point _ a;
      apply = merge_fact-keeps apply_result_eq old.apply update.apply _ b;
      check = merge_fact-keeps verification_eq old.verification update.verification _ c;
      undo = merge_fact-keeps rollback_result_eq old.rollback update.rollback _ d;
      undo_check =
          merge_fact-keeps verification_eq old.rollback_verification update.rollback_verification _
            f;
      stages =
          IfOk-ok (KeepsStages old.stages) (merge_stages old.stages update.stages)
            (merge_stages-keeps old.stages update.stages) ss;
    })

nothing :
    (old : Option ExecutionSnapshot) → is_none old ≡ true → KeepsFacts (or_no_facts old) no_facts
nothing none h = KeepsFacts-refl no_facts
nothing (some s) h = cc

merged_keeps :
    (old : Option ExecutionSnapshot) (update : ExecutionSnapshot)
    → IfOk (λ new. KeepsFacts (or_no_facts old) (or_no_facts new)) (merge_snapshot old update)
unfolding merge_snapshot
merged_keeps old update =
    let P : Option ExecutionSnapshot → Type 0 =
      λ new. KeepsFacts (or_no_facts old) (or_no_facts new) in
    if_holds (λ (r : Result RunError (Option ExecutionSnapshot)). IfOk P r)
      (is_none old && is_factless update) (ok none)
      (merge_facts (or_no_facts old) update >>= λ merged. ok (some merged))
      (λ none'. nothing old (ground arith))
      (λ some'.
        bind-IfOk P (merge_facts (or_no_facts old) update) _
          (λ merged e. merge_facts-keeps (or_no_facts old) update e))

-- What a merge stores keeps every fact that was stored.
pub merge_snapshot-keeps :
    (old : Option ExecutionSnapshot) (update : ExecutionSnapshot) {new : Option ExecutionSnapshot}
    → merge_snapshot old update ≡ ok new
    → KeepsFacts (or_no_facts old) (or_no_facts new)
merge_snapshot-keeps old update h =
    IfOk-ok (λ new. KeepsFacts (or_no_facts old) (or_no_facts new)) (merge_snapshot old update)
      (merged_keeps old update) h
