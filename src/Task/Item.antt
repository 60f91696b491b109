-- ===== src/Task/Item.antt =====
-- app/internal/task/task.go: a check item, its normalization and its validation. A time is a number,
-- and 0 is the zero time.
pub mod Conclusion
use setpoint_ci_mirror.Base.{
  ℕ, Bool, true, false, not, ◌&&◌, ◌||◌, Option, none, some, [], Result, ok, err, ◌>>◌, require,
  is_empty, if◌then◌else◌, eqb,
}
use setpoint_ci_mirror.Base.Text.{Text, codes, is_blank}

-- `ItemStatus` is a string in the source; `other_status` is any string that is not one of the
-- constants.
pub data ItemStatus : Type 0 where
  safe unsafe item_error manual_review not_applicable : ItemStatus
  other_status : Text → ItemStatus

pub record Failure : Type 0 where
  pub code : Text
  pub message : Text

pub record CheckItem : Type 0 where
  pub id : Text
  pub status : ItemStatus
  pub name : Text
  pub current_value : Text
  pub recommended_value : Text
  pub compliant : Option Bool
  pub risk : Text
  pub risk_description : Text
  pub remediation : Text
  pub evidence_summary : Text
  pub applicable : Bool
  pub review_reason : Text
  pub supports_automatic_fix : Bool
  pub supports_rollback : Bool
  pub requires_restart : Bool
  pub may_affect_connection : Bool
  pub may_affect_business : Bool
  pub executed_at : ℕ
  pub error : Option Failure

-- `ValidItemStatus`
unfoldable pub valid_item_status : ItemStatus → Bool
valid_item_status (other_status t) = false
valid_item_status _ = true

-- `item.Status != ""`
abbrev pub has_status : ItemStatus → Bool
has_status (other_status t) = not (is_empty t)
has_status _ = true

abbrev pub is_some {ℓ} : {A : Type ℓ} → Option A → Bool
is_some none = false
is_some (some a) = true

-- `compliant != nil && *compliant`
abbrev pub is_compliant : Option Bool → Bool
is_compliant (some b) = b
is_compliant none = false

abbrev pub status_missing : Failure
status_missing = record {
  code = codes "check_status_missing";
  message = codes "check item did not report a conclusion";
}

-- `NormalizeItem`
unfoldable pub normalize_item : CheckItem → CheckItem
normalize_item i =
    if has_status i.status
    then i
    else if not i.applicable
    then record i { status = not_applicable }
    else if is_some i.error
    then record i { status = item_error }
    else if is_compliant i.compliant
    then record i { status = safe }
    else if is_some i.compliant
    then record i { status = unsafe }
    else record i { status = item_error; error = some status_missing }

pub data ItemError : Type 0 where
  identity_missing status_invalid : ItemError
  safe_inconsistent unsafe_inconsistent manual_review_inconsistent : ItemError
  error_inconsistent not_applicable_inconsistent : ItemError

-- The switch of `ValidateItem`. Its test of the status comes first, so that no other is left.
unfoldable pub validate_status : CheckItem → ItemStatus → Result ItemError Unit
validate_status i safe =
    require
      (not (
        not i.applicable
        || not (is_some i.compliant)
        || not (is_compliant i.compliant)
        || is_some i.error
        || not (is_empty i.review_reason)))
      safe_inconsistent
validate_status i unsafe =
    require
      (not (
        not i.applicable
        || not (is_some i.compliant)
        || is_compliant i.compliant
        || is_some i.error
        || not (is_empty i.review_reason)))
      unsafe_inconsistent
validate_status i manual_review =
    require
      (not (not i.applicable || is_some i.compliant || is_some i.error || is_blank i.review_reason))
      manual_review_inconsistent
validate_status i item_error =
    require (not (not (is_some i.error) || is_some i.compliant || not (is_empty i.review_reason)))
      error_inconsistent
validate_status i not_applicable =
    require
      (not
        (i.applicable || is_some i.compliant || is_some i.error || not (is_empty i.review_reason)))
      not_applicable_inconsistent
validate_status i (other_status t) = ok tt

-- `ValidateItem`
unfoldable pub validate_item : CheckItem → Result ItemError Unit
validate_item i = do
  require (not (is_blank i.id || is_blank i.name || eqb i.executed_at 0)) identity_missing
  require (valid_item_status i.status) status_invalid
  validate_status i i.status
