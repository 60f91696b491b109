-- ===== src/Remediation/Registry.antt =====
-- app/internal/remediation/binding.go: the bindings of checks to operations. A map from check IDs is
-- an association list with different keys, and a map of parameters a list of pairs.
use setpoint_ci_mirror.Base.{
  Bool, true, false, not, ◌&&◌, ◌||◌, Option, none, some, List, [], ◌∷◌, ◌++◌, Result, ok, err,
  ◌>>=◌, ◌>>◌, require, is_empty, ◌==◌, find,
}
use setpoint_ci_mirror.Base.Text.{Text, codes, text_eq, is_blank, trim_space}
use setpoint_ci_mirror.Task.Item.{CheckItem, ItemStatus, unsafe}
use setpoint_ci_mirror.Remediation.Metadata.{
  Disposition, auto_safe, controlled, disposition_eq, RemediationMetadata, is_valid_remediation,
}

pub record Impact : Type 0 where
  pub connection : Bool
  pub business : Bool
  pub restart : Bool

abbrev pub Parameters : Type 0
Parameters = List (Text × Text)

-- `Parameters` is the function of the binding, with its error's text; `none` is a nil function.
pub record Binding : Type 0 where
  pub check_ids : List Text
  pub operation_id : Text
  pub disposition : Disposition
  pub impact : Impact
  pub supports_rollback : Bool
  pub parameters : Option (CheckItem → Result Text Parameters)

pub record Entry : Type 0 where
  pub check_id : Text
  pub binding : Binding

-- `Registry`
abbrev pub Registry : Type 0
Registry = List Entry

abbrev pub is_disposition : Disposition → Disposition → Bool
is_disposition a b = disposition_eq.beq a b

abbrev pub has_impact : Impact → Bool
has_impact i = i.connection || i.business || i.restart

abbrev pub has_parameters : Option (CheckItem → Result Text Parameters) → Bool
has_parameters none = false
has_parameters (some f) = true

abbrev pub as_metadata : Binding → RemediationMetadata
as_metadata b = record {
  disposition = b.disposition;
  operation_id = b.operation_id;
  reason = codes "binding";
}

-- The guards on a binding
unfoldable pub check_binding : Binding → Result Text Unit
check_binding b = do
  require (is_disposition b.disposition auto_safe || is_disposition b.disposition controlled)
      (codes "binding requires AUTO_SAFE or CONTROLLED disposition")
  require
      (not (
        is_empty b.operation_id
        || not (b.operation_id == trim_space b.operation_id)
        || not (is_valid_remediation (as_metadata b))))
      (codes "binding requires an exact valid operation ID")
  require
      (not (is_empty b.check_ids || not (has_parameters b.parameters) || not b.supports_rollback))
      (codes "binding requires checks, finding validation/parameters and rollback")
  require (not (is_disposition b.disposition auto_safe && has_impact b.impact))
      (codes "AUTO_SAFE binding cannot accept connection, business or restart impact")

abbrev pub find_entry : Text → Registry → Option Entry
find_entry id registry = find (λ (e : Entry). e.check_id == id) registry

abbrev pub is_bound : Option Entry → Bool
is_bound none = false
is_bound (some e) = true

-- The loop over the check IDs of a binding. The message quotes the ID in the source.
unfoldable pub bind_checks : Binding → List Text → Registry → Result Text Registry
bind_checks b [] registry = ok registry
bind_checks b (id ∷ ids) registry = do
  require (not (is_blank id || not (id == trim_space id)))
      (codes "binding requires exact nonempty check IDs")
  require (not (is_bound (find_entry id registry))) (codes "duplicate binding for check " ++ id)
  bind_checks b ids (record { check_id = id; binding = record b { check_ids = [] } } ∷ registry)

unfoldable pub bind_all : List Binding → Registry → Result Text Registry
bind_all [] registry = ok registry
bind_all (b ∷ bs) registry = do
  check_binding b
  next ← bind_checks b b.check_ids registry
  bind_all bs next

-- `NewRegistry`
unfoldable pub new_registry : List Binding → Result Text Registry
unfolding bind_all
new_registry bindings = bind_all bindings []

pub record Capability : Type 0 where
  pub operation_id : Text
  pub parameters : Parameters
  pub supports_automatic_fix : Bool
  pub supports_rollback : Bool

-- `Capability{}`
abbrev pub zero_capability : Capability
zero_capability = record {
  operation_id = [];
  parameters = [];
  supports_automatic_fix = false;
  supports_rollback = false;
}

abbrev pub is_unsafe : ItemStatus → Bool
is_unsafe unsafe = true
is_unsafe _ = false

abbrev pub wrapped : Result Text Parameters → Result Text Parameters
wrapped (ok p) = ok p
wrapped (err e) = err (codes "finding does not match binding: " ++ e)

-- `binding.Parameters(item)`; a binding of a registry has the function.
abbrev pub call_parameters :
    Option (CheckItem → Result Text Parameters) → CheckItem → Result Text Parameters
call_parameters none item = err []
call_parameters (some f) item = wrapped (f item)

abbrev pub unmatched : Text
unmatched = codes "no reviewed binding matches check, operation and disposition"

abbrev pub resolve_bound : Binding → CheckItem → RemediationMetadata → Result Text Capability
resolve_bound b item m = do
  require
      (is_valid_remediation m
        && b.operation_id == m.operation_id
        && is_disposition b.disposition m.disposition)
      unmatched
  require
      (not (
        not (is_unsafe item.status)
        || is_blank item.current_value
        || is_blank item.recommended_value))
      (codes "binding requires an unsafe finding with current and recommended values")
  require
      (not (
        (item.may_affect_connection && not b.impact.connection)
        || (item.may_affect_business && not b.impact.business)
        || (item.requires_restart && not b.impact.restart)))
      (codes "finding impact is outside the reviewed binding envelope")
  parameters ← call_parameters b.parameters item
  require (not (is_empty parameters)) (codes "binding produced no parameters")
  ok (record {
    operation_id = b.operation_id;
    parameters = parameters;
    supports_automatic_fix = is_disposition b.disposition auto_safe;
    supports_rollback = b.supports_rollback;
  })

abbrev pub resolve_entry : Option Entry → CheckItem → RemediationMetadata → Result Text Capability
resolve_entry none item m = err unmatched
resolve_entry (some e) item m = resolve_bound e.binding item m

-- `Resolve`; `none` is a nil registry.
unfoldable pub resolve : Option Registry → CheckItem → RemediationMetadata → Result Text Capability
resolve none item m = err (codes "remediation binding registry is unavailable")
resolve (some registry) item m = resolve_entry (find_entry item.id registry) item m
