-- ===== src/CheckRun/Offers.antt =====
-- `BuildRemediationOffers` of app/internal/checkrun/checkrun.go: the repairs that a check run offers.
-- A nil map of parameters and an empty one are the same list.
use setpoint_ci_mirror.Base.{
  Bool, true, false, not, ◌&&◌, ◌||◌, Option, none, some, List, [], ◌∷◌, ◌++◌, Result, ok, err,
  is_empty, if◌then◌else◌, ◌==◌, find,
}
use setpoint_ci_mirror.Base.Text.{Text, codes, text_eq, is_blank, trim_space}
use setpoint_ci_mirror.Task.Item.{CheckItem}
use setpoint_ci_mirror.Remediation.Metadata.{
  Disposition, auto_safe, controlled, disposition_text, RemediationMetadata, zero_remediation,
  is_valid_remediation,
}
use setpoint_ci_mirror.Remediation.Registry.{
  Registry, Parameters, Capability, zero_capability, resolve, is_disposition, is_unsafe,
}
use setpoint_ci_mirror.CheckRun.Aggregate.{RunTask}

-- `Availability` has these two values.
pub data Availability : Type 0 where
  manual_only actionable : Availability

pub record RemediationOffer : Type 0 where
  pub check_run_id : Text
  pub task_id : Text
  pub check_id : Text
  pub node_id : Text
  pub current_value : Text
  pub existing_recommended_value : Text
  pub recommended_value_for_this_run : Text
  pub recommendation_reason : Text
  pub disposition : Disposition
  pub availability : Availability
  pub editable : Bool
  pub parameter_type : Text
  pub options : List Text
  pub supports_automatic_fix : Bool
  pub supports_rollback : Bool
  pub risk : Text
  pub requires_restart : Bool
  pub may_affect_connection : Bool
  pub may_affect_business : Bool
  pub operation_id : Text
  pub operation_parameters : Parameters
  pub block_reason : Text

-- A row of the map of remediations
pub record Declared : Type 0 where
  pub check_id : Text
  pub remediation : RemediationMetadata

-- `remediation, hasRemediation := remediations[item.ID]`
abbrev pub declared : Text → List Declared → Option Declared
declared id rows = find (λ (d : Declared). d.check_id == id) rows

abbrev pub remediation_of : Option Declared → RemediationMetadata
remediation_of none = zero_remediation
remediation_of (some d) = d.remediation

abbrev pub is_declared : Option Declared → Bool
is_declared none = false
is_declared (some d) = true

abbrev pub capability_of : Result Text Capability → Capability
capability_of (ok c) = c
capability_of (err e) = zero_capability

-- `bindingErr != nil`, with its text
abbrev pub refusal : Result Text Capability → Option Text
refusal (ok c) = none
refusal (err e) = some e

abbrev pub no_capability : Text
no_capability = codes "no approved automatic repair capability matches this result"

-- The cases of the `switch` on the capability
abbrev pub block_by_capability : RemediationMetadata → Option Text → Capability → Option Text
block_by_capability m (some e) c =
    if is_disposition m.disposition auto_safe then some no_capability else some e
block_by_capability m none c =
    if is_empty c.operation_id || is_empty c.parameters
    then some no_capability
    else if is_disposition m.disposition auto_safe && not c.supports_automatic_fix
    then some (codes "approved repair capability does not support automatic fix")
    else if not c.supports_rollback
    then some (codes "approved repair capability does not provide rollback")
    else none

-- `switch`: the reason why an offer is not actionable, if there is one.
unfoldable pub block_reason : CheckItem → Option Declared → Result Text Capability → Option Text
block_reason item d resolved =
    let m = remediation_of d in
    if not (is_unsafe item.status)
    then some (codes "check result is not an unsafe finding")
    else if is_blank item.current_value
    then some (codes "current value is unavailable")
    else if is_blank item.recommended_value
    then some (codes "recommended value is unavailable")
    else if is_disposition m.disposition auto_safe
        && (item.may_affect_connection || item.may_affect_business)
    then some (codes "connection or business impact requires manual handling")
    else if not (is_declared d) || not (is_valid_remediation m)
    then some (codes "remediation disposition is unavailable or invalid")
    else if not (is_disposition m.disposition auto_safe)
        && (not (is_disposition m.disposition controlled) || is_empty m.operation_id)
    then some (codes "check remediation disposition is " ++ disposition_text m.disposition)
    else block_by_capability m (refusal resolved) (capability_of resolved)

abbrev pub first_text : Text → Text → Text
first_text a b = if is_empty a then b else a

-- The offer before the `switch`
abbrev pub draft_offer :
    Text → RunTask → CheckItem → Option Declared → Capability → RemediationOffer
draft_offer run t item d c = record {
  check_run_id = run;
  task_id = t.id;
  check_id = item.id;
  node_id = t.node_id;
  current_value = item.current_value;
  existing_recommended_value = item.recommended_value;
  recommended_value_for_this_run = item.recommended_value;
  recommendation_reason =
      first_text (trim_space item.remediation) (trim_space item.evidence_summary);
  disposition = (remediation_of d).disposition;
  availability = manual_only;
  editable = false;
  parameter_type = [];
  options = [];
  supports_automatic_fix = c.supports_automatic_fix;
  supports_rollback = c.supports_rollback;
  risk = item.risk;
  requires_restart = item.requires_restart;
  may_affect_connection = item.may_affect_connection;
  may_affect_business = item.may_affect_business;
  operation_id = c.operation_id;
  operation_parameters = c.parameters;
  block_reason = [];
}

abbrev pub settled : CheckItem → Option Text → RemediationOffer → RemediationOffer
settled item (some reason) o = record o { block_reason = reason }
settled item none o = record o {
  availability = actionable;
  parameter_type = codes "string";
  options = item.recommended_value ∷ [];
}

unfoldable pub offer :
    Text → List Declared → Option Registry → RunTask → CheckItem → RemediationOffer
unfolding block_reason
offer run remediations bindings t item =
    let d = declared item.id remediations in
    let resolved = resolve bindings item (remediation_of d) in
    settled item (block_reason item d resolved) (draft_offer run t item d (capability_of resolved))

abbrev pub item_offers :
    Text → List Declared → Option Registry → RunTask → List CheckItem → List RemediationOffer
item_offers run remediations bindings t [] = []
item_offers run remediations bindings t (i ∷ is) =
    offer run remediations bindings t i ∷ item_offers run remediations bindings t is

abbrev pub task_offers :
    Text
    → List Declared
    → Option Registry
    → RunTask
    → Option (List CheckItem)
    → List RemediationOffer
task_offers run remediations bindings t none = []
task_offers run remediations bindings t (some items) = item_offers run remediations bindings t items

-- `BuildRemediationOffers`
unfoldable pub build_remediation_offers :
    Text → List RunTask → List Declared → Option Registry → List RemediationOffer
build_remediation_offers run [] remediations bindings = []
build_remediation_offers run (t ∷ ts) remediations bindings =
    task_offers run remediations bindings t t.result
    ++ build_remediation_offers run ts remediations bindings
