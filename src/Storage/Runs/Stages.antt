-- ===== src/Storage/Runs/Stages.antt =====
-- The merge of one stage (app/internal/storage/sqlite/operation_runs.go), and the places of the stages
-- in the sorted list.
use setpoint_ci_mirror.Base.{
  ℕ, ◌≡◌, refl, sym, ◌&&◌, Option, none, some, List, [], ◌∷◌, ◌++◌, Memᴰ, Result, ok, >>=-eq-ok,
  subst, ◌⊎◌, require, ltb, Eq, if_holds, ◌==◌, Bool-cases, inl, inr, arith,
}
use setpoint_ci_mirror.Base.Members.{mem-cases}
use setpoint_ci_mirror.Base.Text.{Text, codes, text_eq}
use setpoint_ci_mirror.Operation.Equal.{
  restore_point_eq, apply_result_eq, verification_eq, rollback_result_eq,
}
use setpoint_ci_mirror.OperationRun.{StageExecutionSnapshot}
use setpoint_ci_mirror.Storage.Runs.Tables.{RunError, stage_identity}
use setpoint_ci_mirror.Storage.Runs.Facts.{
  merge_fact, merge_stage_time, merge_stage, insert_stage, sort_stages,
}
use setpoint_ci_mirror.Storage.Runs.Kept.{
  KeepsFact, KeepsTime, StageKeeps, KeepsStages, StageKeeps-refl,
}

pub merge_fact-keeps :
    {A : Type 0} (e : Eq A) (old update : Option A) (name : Text) {new : Option A}
    → merge_fact e old update name ≡ ok new
    → KeepsFact old new
merge_fact-keeps e old none name h x known = cc
merge_fact-keeps e none (some u) name h x known = cc
merge_fact-keeps e (some c) (some u) name h x known = elim (Bool-cases (e.beq c u)) [
  | inl yes' ↦ cc (rw yes' at h, known)
  | inr no' ↦ absurd (cc (rw no' at h))
]

merge_stage_time-keeps :
    (old update : ℕ) {new : ℕ} → merge_stage_time old update ≡ ok new → KeepsTime old new
merge_stage_time-keeps old update h set = ground arith

pub ok-injective : {A : Type 0} {x y : A} → ◌≡◌ {A = Result RunError A} (ok x) (ok y) → x ≡ y
ok-injective h = cc

pub merge_stage-keeps :
    (old update : StageExecutionSnapshot) {new : StageExecutionSnapshot}
    → merge_stage old update ≡ ok new
    → StageKeeps old new
unfolding merge_stage
merge_stage-keeps old update h =
    let (_, _, h0) =
      >>=-eq-ok
        (require
          (old.stage_id == update.stage_id && old.executor_node_id == update.executor_node_id)
          stage_identity)
        _ h in
    let (_, a, h1) =
      >>=-eq-ok
        (merge_fact restore_point_eq old.restore_point update.restore_point
          (codes "stage restore point"))
        _ h0 in
    let (_, b, h2) =
      >>=-eq-ok (merge_fact apply_result_eq old.apply update.apply (codes "stage Apply result")) _
        h1 in
    let (_, c, h3) =
      >>=-eq-ok
        (merge_fact verification_eq old.verification update.verification
          (codes "stage verification"))
        _ h2 in
    let (_, d, h4) =
      >>=-eq-ok
        (merge_fact rollback_result_eq old.rollback update.rollback (codes "stage rollback result"))
        _ h3 in
    let (_, f, h5) =
      >>=-eq-ok
        (merge_fact verification_eq old.rollback_verification update.rollback_verification
          (codes "stage rollback verification"))
        _ h4 in
    let (_, i, h6) =
      >>=-eq-ok (merge_stage_time old.restore_point_at update.restore_point_at) _ h5 in
    let (_, j, h7) = >>=-eq-ok (merge_stage_time old.apply_at update.apply_at) _ h6 in
    let (_, k, h8) = >>=-eq-ok (merge_stage_time old.verification_at update.verification_at) _ h7 in
    let (_, l, h9) = >>=-eq-ok (merge_stage_time old.rollback_at update.rollback_at) _ h8 in
    let (_, m, made) =
      >>=-eq-ok (merge_stage_time old.rollback_verification_at update.rollback_verification_at) _
        h9 in
    subst (StageKeeps old) (ok-injective made) (record {
      same_index = refl;
      same_id = refl;
      same_executor = refl;
      point = merge_fact-keeps restore_point_eq old.restore_point update.restore_point _ a;
      apply = merge_fact-keeps apply_result_eq old.apply update.apply _ b;
      check = merge_fact-keeps verification_eq old.verification update.verification _ c;
      undo = merge_fact-keeps rollback_result_eq old.rollback update.rollback _ d;
      undo_check =
          merge_fact-keeps verification_eq old.rollback_verification update.rollback_verification _
            f;
      point_at = merge_stage_time-keeps old.restore_point_at update.restore_point_at i;
      apply_at = merge_stage_time-keeps old.apply_at update.apply_at j;
      check_at = merge_stage_time-keeps old.verification_at update.verification_at k;
      undo_at = merge_stage_time-keeps old.rollback_at update.rollback_at l;
      undo_check_at =
          merge_stage_time-keeps old.rollback_verification_at update.rollback_verification_at m;
    })

mem-insert :
    (s x : StageExecutionSnapshot) (us : List StageExecutionSnapshot)
    → (x ≡ s) ⊎ Memᴰ x us
    → Memᴰ x (insert_stage s us)
unfolding insert_stage
mem-insert s x [] (inl e) = Memᴰ.head e
mem-insert s x [] (inr m) = elim m [ ]
mem-insert s x (u ∷ us) h =
    if_holds (λ (ss : List StageExecutionSnapshot). Memᴰ x ss) (ltb u.stage_index s.stage_index)
      (u ∷ insert_stage s us) (s ∷ u ∷ us)
      (λ below. elim h [
        | inl e ↦ Memᴰ.tail (mem-insert s x us (inl e))
        | inr m ↦ elim (mem-cases m) [
          | inl e ↦ Memᴰ.head e
          | inr n ↦ Memᴰ.tail (mem-insert s x us (inr n))
        ]
      ])
      (λ above. elim h [ inl e ↦ Memᴰ.head e | inr m ↦ Memᴰ.tail m ])

pub mem-sort :
    (x : StageExecutionSnapshot) (ss : List StageExecutionSnapshot)
    → Memᴰ x ss
    → Memᴰ x (sort_stages ss)
unfolding sort_stages
mem-sort x [] m = elim m [ ]
mem-sort x (s ∷ ss) (Memᴰ.head e) = mem-insert s x (sort_stages ss) (inl e)
mem-sort x (s ∷ ss) (Memᴰ.tail m) = mem-insert s x (sort_stages ss) (inr (mem-sort x ss m))

pub mem-init :
    (x : StageExecutionSnapshot) (ss ts : List StageExecutionSnapshot)
    → Memᴰ x ss
    → Memᴰ x (ss ++ ts)
mem-init x [] ts m = elim m [ ]
mem-init x (s ∷ ss) ts (Memᴰ.head e) = Memᴰ.head e
mem-init x (s ∷ ss) ts (Memᴰ.tail m) = Memᴰ.tail (mem-init x ss ts m)

pub keeps_head :
    (s u : StageExecutionSnapshot) (ss : List StageExecutionSnapshot)
    → StageKeeps s u
    → KeepsStages (s ∷ ss) (u ∷ ss)
keeps_head s u ss k x m = elim (mem-cases m) [
  | inl e ↦ (u, Memᴰ.head refl, subst (λ y. StageKeeps y u) (sym e) k)
  | inr n ↦ (x, Memᴰ.tail n, StageKeeps-refl x)
]

pub keeps_tail :
    (s : StageExecutionSnapshot) (ss us : List StageExecutionSnapshot)
    → KeepsStages ss us
    → KeepsStages (s ∷ ss) (s ∷ us)
keeps_tail s ss us k x m = elim (mem-cases m) [
  | inl e ↦ (x, Memᴰ.head e, StageKeeps-refl x)
  | inr n ↦ let (y, o, h) = k x n in (y, Memᴰ.tail o, h)
]
