-- ===== src/Tests/Items.antt =====
-- Runs of the checks of reported items.
use setpoint_ci_mirror.Base.{
  ◌≡◌, ◌↔◌, refl, true, false, some, none, [], ◌∷◌, map, ok, contains, All,
}
use setpoint_ci_mirror.Base.Text.{codes, trim_space, text_beq, text_eq}
use setpoint_ci_mirror.Base.Members.{IsDistinct}
use setpoint_ci_mirror.Task.Item.{
  CheckItem, safe, unsafe, other_status, normalize_item, validate_item, validate_status,
  valid_item_status,
}
use setpoint_ci_mirror.Task.Item.Conclusion.{validate-normalize, validate_item-conclusion}
use setpoint_ci_mirror.Task.Contract.{
  CheckResult, ResultContract, completed, expected_ids, validate_items, all_seen, validate_state,
  validate_check_result,
}
use setpoint_ci_mirror.Task.Contract.Coverage.{ids, validate_check_result-coverage}

abbrev raw : CheckItem
raw = record {
  id = codes "ssh";
  status = other_status [];
  name = codes "ssh";
  current_value = [];
  recommended_value = codes "no";
  compliant = some false;
  risk = [];
  risk_description = [];
  remediation = [];
  evidence_summary = [];
  applicable = true;
  review_reason = [];
  supports_automatic_fix = false;
  supports_rollback = false;
  requires_restart = false;
  may_affect_connection = false;
  may_affect_business = false;
  executed_at = 3;
  error = none;
}

abbrev judged : CheckItem
judged = record raw { status = unsafe }

judged_valid : validate_item judged ≡ ok tt
unfolding validate_item validate_status valid_item_status trim_space
judged_valid = refl

validate-normalize_example : validate_item (normalize_item raw) ≡ ok tt
unfolding trim_space
validate-normalize_example = validate-normalize raw refl refl refl

validate_item-conclusion_example :
    ((unsafe ≡ safe) ↔ (judged.compliant ≡ some true))
    × ((unsafe ≡ unsafe) ↔ (judged.compliant ≡ some false))
validate_item-conclusion_example = validate_item-conclusion judged judged_valid

abbrev contract : ResultContract
contract = record {
  plugin_id = codes "base";
  plugin_version = codes "1";
  item_ids = codes "ssh" ∷ [];
  item_definitions = [];
}

abbrev result : CheckResult
result = record {
  plugin_id = codes "base";
  plugin_version = codes "1";
  state = completed;
  started_at = 2;
  completed_at = 4;
  items = raw ∷ [];
  error = none;
}

result_accepted : validate_check_result (some result) contract ≡ ok (judged ∷ [])
unfolding validate_check_result validate_state expected_ids validate_items all_seen normalize_item
    validate_item validate_status valid_item_status trim_space text_beq
result_accepted = refl

validate_check_result-coverage_example :
    IsDistinct (ids (judged ∷ []))
    × All (λ i. validate_item i ≡ ok tt) (judged ∷ [])
    × All (λ id. contains id (map trim_space contract.item_ids) ≡ true) (ids (judged ∷ []))
    × (result.state ≡ completed
        → All (λ id. contains id (ids (judged ∷ [])) ≡ true) contract.item_ids)
validate_check_result-coverage_example =
    validate_check_result-coverage result contract (judged ∷ []) result_accepted
