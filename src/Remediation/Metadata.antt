-- ===== src/Remediation/Metadata.antt =====
-- app/internal/plugin/remediation.go: what a check declares about its remediation.
use setpoint_ci_mirror.Base.{
  ℕ, Bool, true, false, not, ◌||◌, List, [], ◌∷◌, Result, ok, err, ◌>>◌, require, is_empty, Option,
  none, some, get_elem?, ◌≡◌, refl, Eq, nat_eq,
}
use setpoint_ci_mirror.Base.Deep.{eq_by, pair_eq}
use setpoint_ci_mirror.Base.Text.{Text, codes, text_eq, is_blank, trim_space}
use setpoint_ci_mirror.Operation.Metadata.{valid_id}

-- `RemediationDisposition` is a string in the source; `other_disposition` is any string that is not
-- one of the constants.
pub data Disposition : Type 0 where
  auto_safe controlled manual_only not_applicable : Disposition
  other_disposition : Text → Disposition

abbrev disposition_fields : Disposition → ℕ × Text
disposition_fields auto_safe = (0, [])
disposition_fields controlled = (1, [])
disposition_fields manual_only = (2, [])
disposition_fields not_applicable = (3, [])
disposition_fields (other_disposition t) = (4, t)

disposition_list : List Disposition
disposition_list = auto_safe ∷ controlled ∷ manual_only ∷ not_applicable ∷ []

or_other : Text → Option Disposition → Disposition
or_other t none = other_disposition t
or_other t (some d) = d

disposition_of : ℕ × Text → Disposition
unfolding disposition_list or_other
disposition_of p = or_other p.1 (get_elem? disposition_list p.0)

disposition_inverse : (d : Disposition) → disposition_of (disposition_fields d) ≡ d
unfolding disposition_of
disposition_inverse auto_safe = refl
disposition_inverse _ = refl

-- `a == b` on dispositions
unfoldable pub disposition_eq : Eq Disposition
unfolding disposition_of disposition_inverse
disposition_eq =
    eq_by disposition_fields disposition_of disposition_inverse (pair_eq nat_eq text_eq)

pub record RemediationMetadata : Type 0 where
  pub disposition : Disposition
  pub operation_id : Text
  pub reason : Text

-- `RemediationMetadata{}`, which a lookup gives for a key that the map lacks
abbrev pub zero_remediation : RemediationMetadata
zero_remediation = record { disposition = other_disposition []; operation_id = []; reason = [] }

pub data MetadataRefusal : Type 0 where
  invalid_disposition : Text → MetadataRefusal
  reason_required auto_safe_needs_operation bad_operation operation_not_allowed : MetadataRefusal

-- `ValidRemediationDisposition`
unfoldable pub valid_disposition : Disposition → Bool
valid_disposition (other_disposition t) = false
valid_disposition _ = true

abbrev pub operation_allowed : Disposition → Text → Result MetadataRefusal Unit
operation_allowed auto_safe id = require (valid_id id) auto_safe_needs_operation
operation_allowed controlled id = require (is_empty id || valid_id id) bad_operation
operation_allowed _ id = require (is_empty id) operation_not_allowed

abbrev pub disposition_text : Disposition → Text
disposition_text auto_safe = codes "AUTO_SAFE"
disposition_text controlled = codes "CONTROLLED"
disposition_text manual_only = codes "MANUAL_ONLY"
disposition_text not_applicable = codes "NOT_APPLICABLE"
disposition_text (other_disposition t) = t

-- `ValidateRemediationMetadata`
unfoldable pub validate_remediation : RemediationMetadata → Result MetadataRefusal Unit
validate_remediation m = do
  require (valid_disposition m.disposition) (invalid_disposition (disposition_text m.disposition))
  require (not (is_blank m.reason)) reason_required
  operation_allowed m.disposition (trim_space m.operation_id)

-- `err == nil`
abbrev pub is_ok : {E A : Type 0} → Result E A → Bool
is_ok (ok a) = true
is_ok (err e) = false

-- `ValidateRemediationMetadata(metadata) == nil`
abbrev pub is_valid_remediation : RemediationMetadata → Bool
is_valid_remediation m = is_ok (validate_remediation m)
