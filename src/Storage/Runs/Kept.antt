-- ===== src/Storage/Runs/Kept.antt =====
-- What it means that the facts of an execution snapshot are kept, and that it composes.
use setpoint_ci_mirror.Base.{ℕ, ◌≡◌, refl, sym, ◌∙◌, Option, some, List, Memᴰ}
use setpoint_ci_mirror.OperationRun.{StageExecutionSnapshot, ExecutionSnapshot}

-- A fact that is there stays there, as it is.
abbrev pub KeepsFact : {A : Type 0} → Option A → Option A → Type 0
KeepsFact {A} old new = (x : A) → old ≡ some x → new ≡ some x

-- A time that is set stays as it is.
abbrev pub KeepsTime : ℕ → ℕ → Type 0
KeepsTime old new = (old ≡ 0 → ⊥) → new ≡ old

pub record StageKeeps (old new : StageExecutionSnapshot) : Type 0 where
  pub same_index : new.stage_index ≡ old.stage_index
  pub same_id : new.stage_id ≡ old.stage_id
  pub same_executor : new.executor_node_id ≡ old.executor_node_id
  pub point : KeepsFact old.restore_point new.restore_point
  pub apply : KeepsFact old.apply new.apply
  pub check : KeepsFact old.verification new.verification
  pub undo : KeepsFact old.rollback new.rollback
  pub undo_check : KeepsFact old.rollback_verification new.rollback_verification
  pub point_at : KeepsTime old.restore_point_at new.restore_point_at
  pub apply_at : KeepsTime old.apply_at new.apply_at
  pub check_at : KeepsTime old.verification_at new.verification_at
  pub undo_at : KeepsTime old.rollback_at new.rollback_at
  pub undo_check_at : KeepsTime old.rollback_verification_at new.rollback_verification_at

-- Every stage is still there, with its facts.
abbrev pub KeepsStages : List StageExecutionSnapshot → List StageExecutionSnapshot → Type 0
KeepsStages old new =
    (x : StageExecutionSnapshot)
    → Memᴰ x old
    → (y : StageExecutionSnapshot) × Memᴰ y new × StageKeeps x y

pub record KeepsFacts (old new : ExecutionSnapshot) : Type 0 where
  pub point : KeepsFact old.restore_point new.restore_point
  pub apply : KeepsFact old.apply new.apply
  pub check : KeepsFact old.verification new.verification
  pub undo : KeepsFact old.rollback new.rollback
  pub undo_check : KeepsFact old.rollback_verification new.rollback_verification
  pub stages : KeepsStages old.stages new.stages

pub StageKeeps-refl : (s : StageExecutionSnapshot) → StageKeeps s s
StageKeeps-refl s = record {
  same_index = refl;
  same_id = refl;
  same_executor = refl;
  point = λ x h. h;
  apply = λ x h. h;
  check = λ x h. h;
  undo = λ x h. h;
  undo_check = λ x h. h;
  point_at = λ h. refl;
  apply_at = λ h. refl;
  check_at = λ h. refl;
  undo_at = λ h. refl;
  undo_check_at = λ h. refl;
}

KeepsTime-trans : (a b c : ℕ) → KeepsTime a b → KeepsTime b c → KeepsTime a c
KeepsTime-trans a b c h k set = k (λ unset. set (sym (h set) ∙ unset)) ∙ h set

pub StageKeeps-trans :
    (a b c : StageExecutionSnapshot) → StageKeeps a b → StageKeeps b c → StageKeeps a c
StageKeeps-trans a b c h k = record {
  same_index = k.same_index ∙ h.same_index;
  same_id = k.same_id ∙ h.same_id;
  same_executor = k.same_executor ∙ h.same_executor;
  point = λ x e. k.point x (h.point x e);
  apply = λ x e. k.apply x (h.apply x e);
  check = λ x e. k.check x (h.check x e);
  undo = λ x e. k.undo x (h.undo x e);
  undo_check = λ x e. k.undo_check x (h.undo_check x e);
  point_at =
      KeepsTime-trans a.restore_point_at b.restore_point_at c.restore_point_at h.point_at
        k.point_at;
  apply_at = KeepsTime-trans a.apply_at b.apply_at c.apply_at h.apply_at k.apply_at;
  check_at =
      KeepsTime-trans a.verification_at b.verification_at c.verification_at h.check_at k.check_at;
  undo_at = KeepsTime-trans a.rollback_at b.rollback_at c.rollback_at h.undo_at k.undo_at;
  undo_check_at =
      KeepsTime-trans a.rollback_verification_at b.rollback_verification_at
        c.rollback_verification_at h.undo_check_at k.undo_check_at;
}

pub KeepsStages-refl : (ss : List StageExecutionSnapshot) → KeepsStages ss ss
KeepsStages-refl ss x m = (x, m, StageKeeps-refl x)

pub KeepsStages-trans :
    (a b c : List StageExecutionSnapshot) → KeepsStages a b → KeepsStages b c → KeepsStages a c
KeepsStages-trans a b c h k x m =
    let (y, n, xy) = h x m in let (z, o, yz) = k y n in (z, o, StageKeeps-trans x y z xy yz)

pub KeepsFacts-refl : (s : ExecutionSnapshot) → KeepsFacts s s
KeepsFacts-refl s = record {
  point = λ x h. h;
  apply = λ x h. h;
  check = λ x h. h;
  undo = λ x h. h;
  undo_check = λ x h. h;
  stages = KeepsStages-refl s.stages;
}

pub KeepsFacts-trans :
    (a b c : ExecutionSnapshot) → KeepsFacts a b → KeepsFacts b c → KeepsFacts a c
KeepsFacts-trans a b c h k = record {
  point = λ x e. k.point x (h.point x e);
  apply = λ x e. k.apply x (h.apply x e);
  check = λ x e. k.check x (h.check x e);
  undo = λ x e. k.undo x (h.undo x e);
  undo_check = λ x e. k.undo_check x (h.undo_check x e);
  stages = KeepsStages-trans a.stages b.stages c.stages h.stages k.stages;
}
