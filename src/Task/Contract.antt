-- ===== src/Task/Contract.antt =====
-- app/internal/task/result_contract.go: a reported result against the frozen contract of its check.
-- The source normalizes the items of the result in place; here the normalized items are returned.
pub mod Coverage
use setpoint_ci_mirror.Base.{
  ℕ, Bool, true, false, not, ◌&&◌, ◌||◌, Option, none, some, List, [], ◌∷◌, map, Result, ok, err,
  ◌>>=◌, ◌>>◌, require, is_empty, if◌then◌else◌, eqb, ltb, contains, find, reverse, ◌==◌,
}
use setpoint_ci_mirror.Base.Text.{Text, trim_space, is_blank, text_eq}
use setpoint_ci_mirror.Task.Item.{
  ItemStatus, item_error, Failure, CheckItem, ItemError, normalize_item, validate_item,
}

-- `CheckState` is a string in the source.
pub data CheckState : Type 0 where
  completed check_error : CheckState
  other_state : Text → CheckState

pub record CheckResult : Type 0 where
  pub plugin_id : Text
  pub plugin_version : Text
  pub state : CheckState
  pub started_at : ℕ
  pub completed_at : ℕ
  pub items : List CheckItem
  pub error : Option Failure

pub record CheckDefinitionSnapshot : Type 0 where
  pub id : Text
  pub name : Text
  pub description : Text
  pub recommended_value : Text
  pub source_refs : List Text

pub record ResultContract : Type 0 where
  pub plugin_id : Text
  pub plugin_version : Text
  pub item_ids : List Text
  pub item_definitions : List CheckDefinitionSnapshot

pub data ResultError : Type 0 where
  result_required plugin_mismatch version_mismatch timestamps_invalid : ResultError
  unexpected_error failure_required failure_incomplete state_invalid : ResultError
  empty_contract_id duplicate_contract_id definition_missing : ResultError
  bad_item : ItemError → ResultError
  duplicate_item unknown_item definition_mismatch item_missing : ResultError

-- `validateFailure`
unfoldable pub validate_failure : Option Failure → Result ResultError Unit
validate_failure none = err failure_required
validate_failure (some f) = require (not (is_blank f.code || is_blank f.message)) failure_incomplete

unfoldable pub validate_state : CheckState → Option Failure → Result ResultError Unit
validate_state completed none = ok tt
validate_state completed (some f) = err unexpected_error
validate_state check_error failure = validate_failure failure
validate_state (other_state t) failure = err state_invalid

-- `definitions[id]`: the last definition with this ID.
abbrev pub definition_of : List CheckDefinitionSnapshot → Text → Option CheckDefinitionSnapshot
definition_of definitions id = find (λ d. d.id == id) (reverse definitions)

abbrev pub is_defined : Option CheckDefinitionSnapshot → Bool
is_defined none = false
is_defined (some d) = true

-- The loop over `contract.ItemIDs`: `expected` holds the IDs so far.
unfoldable pub expected_ids :
    List CheckDefinitionSnapshot → List Text → List Text → Result ResultError (List Text)
expected_ids definitions expected [] = ok expected
expected_ids definitions expected (text ∷ rest) = do
  require (not (is_blank text)) empty_contract_id
  require (not (contains (trim_space text) expected)) duplicate_contract_id
  require (is_empty definitions || is_defined (definition_of definitions (trim_space text)))
      definition_missing
  expected_ids definitions (trim_space text ∷ expected) rest

abbrev pub as_result : {A : Type 0} → Result ItemError A → Result ResultError A
as_result (ok a) = ok a
as_result (err e) = err (bad_item e)

abbrev pub error_reported : ItemStatus → Option Failure → Result ResultError Unit
error_reported item_error failure = validate_failure failure
error_reported _ failure = ok tt

abbrev pub fits : CheckItem → Option CheckDefinitionSnapshot → Bool
fits i none = true
fits i (some d) = i.name == d.name && i.recommended_value == d.recommended_value

-- The loop over `result.Items`: `seen` holds the IDs so far. It returns the normalized items.
unfoldable pub validate_items :
    List CheckDefinitionSnapshot
    → List Text
    → List Text
    → List CheckItem
    → Result ResultError (List CheckItem)
validate_items definitions expected seen [] = ok []
validate_items definitions expected seen (raw ∷ rest) = do
  as_result (validate_item (normalize_item raw))
  error_reported (normalize_item raw).status (normalize_item raw).error
  require (not (contains (normalize_item raw).id seen)) duplicate_item
  require (contains (normalize_item raw).id expected) unknown_item
  require (fits (normalize_item raw) (definition_of definitions (normalize_item raw).id))
      definition_mismatch
  items ← validate_items definitions expected ((normalize_item raw).id ∷ seen) rest
  ok (normalize_item raw ∷ items)

-- The last loop: a completed check reports every item.
unfoldable pub all_seen : CheckState → List Text → List Text → Result ResultError Unit
all_seen completed seen [] = ok tt
all_seen completed seen (id ∷ ids) = do
  require (contains id seen) item_missing
  all_seen completed seen ids
all_seen _ seen ids = ok tt

abbrev pub has_timestamps : CheckResult → Bool
has_timestamps r =
    not (eqb r.started_at 0 || eqb r.completed_at 0 || ltb r.completed_at r.started_at)

-- `ValidateCheckResult`
unfoldable pub validate_check_result :
    Option CheckResult → ResultContract → Result ResultError (List CheckItem)
validate_check_result none contract = err result_required
validate_check_result (some result) contract = do
  require (result.plugin_id == contract.plugin_id) plugin_mismatch
  require (result.plugin_version == contract.plugin_version) version_mismatch
  require (has_timestamps result) timestamps_invalid
  validate_state result.state result.error
  expected ← expected_ids contract.item_definitions [] contract.item_ids
  items ← validate_items contract.item_definitions expected [] result.items
  all_seen result.state (map (λ i. i.id) items) contract.item_ids
  ok items
