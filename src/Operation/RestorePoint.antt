-- ===== src/Operation/RestorePoint.antt =====
-- app/internal/operation/restore_point.go
use setpoint_ci_mirror.Base.{
  ℕ, Bool, true, false, not, ◌||◌, Option, none, some, List, [], ◌∷◌, Result, ok, err, ◌>>◌,
  require, eqb, ltb, is_empty,
}
use setpoint_ci_mirror.Base.Text.{Text, is_blank}
use setpoint_ci_mirror.Operation.Target.{Target, TargetError, validate_target}
use setpoint_ci_mirror.Operation.Definition.{Artifact, EvidenceRef, zero_artifact}

-- `RestorePointStatus` is a string in the source; `other_status` is any string that is not one of
-- the constants.
pub data RestorePointStatus : Type 0 where
  created verified restored invalid : RestorePointStatus
  other_status : Text → RestorePointStatus

pub record RestorePoint : Type 0 where
  pub id : Text
  pub provider_id : Text
  pub operation_id : Text
  pub run_id : Text
  pub status : RestorePointStatus
  pub targets : List Target
  pub created_at : ℕ
  pub expires_at : Option ℕ
  pub manifest : Artifact
  pub evidence : List EvidenceRef

pub data RestorePointError : Type 0 where
  identity_incomplete creation_time_required not_verified expired : RestorePointError
  target_required manifest_required : RestorePointError
  bad_target : TargetError → RestorePointError

abbrev pub is_usable : RestorePointStatus → Bool
is_usable verified = true
is_usable restored = true
is_usable _ = false

abbrev pub is_unexpired : Option ℕ → ℕ → Bool
is_unexpired none now = true
is_unexpired (some at) now = ltb now at

pub validate_targets : List Target → Result RestorePointError Unit
validate_targets [] = ok tt
validate_targets (t ∷ ts) =
    let rest = validate_targets ts in
    elim (validate_target t) [ ok _ ↦ rest | err e ↦ err (bad_target e) ]

-- `ValidateRestorePoint`
unfoldable pub validate_restore_point : RestorePoint → ℕ → Result RestorePointError Unit
unfolding validate_targets
validate_restore_point p now = do
  require
      (not
        (is_blank p.id || is_blank p.provider_id || is_blank p.operation_id || is_blank p.run_id))
      identity_incomplete
  require (not (eqb p.created_at 0)) creation_time_required
  require (is_usable p.status) not_verified
  require (is_unexpired p.expires_at now) expired
  require (not (is_empty p.targets)) target_required
  validate_targets p.targets
  require (not (is_blank p.manifest.schema_version || is_empty p.manifest.payload))
      manifest_required

abbrev pub zero_restore_point : RestorePoint
zero_restore_point = record {
  id = [];
  provider_id = [];
  operation_id = [];
  run_id = [];
  status = other_status [];
  targets = [];
  created_at = 0;
  expires_at = none;
  manifest = zero_artifact;
  evidence = [];
}
