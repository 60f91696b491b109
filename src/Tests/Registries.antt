-- ===== src/Tests/Registries.antt =====
-- Runs of the registry of operations.
use setpoint_ci_mirror.Base.{
  ℕ, false, ◌≡◌, refl, Option, none, some, List, [], ◌∷◌, Result, ok, err,
}
use setpoint_ci_mirror.Base.Text.{Text, codes}
use setpoint_ci_mirror.Operation.Metadata.{Metadata, Parameter}
use setpoint_ci_mirror.Operation.Registry.{
  Candidate, OperationRegistry, new_operations, register_all, list_metadata, normalize_parameters,
  planning_definition, normalizer_required,
}
use setpoint_ci_mirror.Operation.Registry.Catalog.{IsListed, register_all-IsListed}
use setpoint_ci_mirror.Tests.Plannings.{metadata}

abbrev second : Metadata
second = record metadata {
  id = codes "aa";
  parameters =
      record {
        name = codes "p";
        type_name = codes "object";
        description = [];
        required = false;
        options = [];
        fields =
            record {
              name = codes "f";
              type_name = codes "string";
              description = [];
              required = false;
              options = [];
            }
            ∷ [];
      }
      ∷ [];
}

abbrev offered : Metadata → ℕ → Option (Candidate ℕ ℕ)
offered m n =
    some (record { metadata = m; planning = some n; definition = none; normalizer = none })

-- Three candidates, of which one is a duplicate, and no candidate
abbrev offers : List (Option (Candidate ℕ ℕ))
offers = offered metadata 1 ∷ offered second 2 ∷ none ∷ offered metadata 3 ∷ []

abbrev catalog : OperationRegistry ℕ ℕ
catalog = register_all offers new_operations

catalog_list : list_metadata catalog ≡ second ∷ metadata ∷ []
unfolding list_metadata register_all setpoint_ci_mirror.Base.Text.Sort.sort_by
    setpoint_ci_mirror.Operation.Metadata.validate_metadata
    setpoint_ci_mirror.Operation.Metadata.valid_id setpoint_ci_mirror.Base.Text.trim_space
    setpoint_ci_mirror.Operation.Metadata.valid_risk
    setpoint_ci_mirror.Operation.Metadata.validate_parameters
    setpoint_ci_mirror.Operation.Metadata.validate_secrets
    setpoint_ci_mirror.Operation.Metadata.valid_parameter_type setpoint_ci_mirror.Base.Text.text_beq
    setpoint_ci_mirror.Operation.Metadata.validate_parameter_fields
    setpoint_ci_mirror.Operation.Metadata.validate_fields
    setpoint_ci_mirror.Operation.Metadata.valid_field_type setpoint_ci_mirror.Base.Text.text_lt
catalog_list = refl

catalog_planning : planning_definition (codes "op") catalog ≡ some 1
unfolding planning_definition register_all setpoint_ci_mirror.Operation.Metadata.validate_metadata
    setpoint_ci_mirror.Operation.Metadata.valid_id setpoint_ci_mirror.Base.Text.trim_space
    setpoint_ci_mirror.Operation.Metadata.valid_risk
    setpoint_ci_mirror.Operation.Metadata.validate_parameters
    setpoint_ci_mirror.Operation.Metadata.validate_secrets
    setpoint_ci_mirror.Operation.Metadata.valid_parameter_type setpoint_ci_mirror.Base.Text.text_beq
    setpoint_ci_mirror.Operation.Metadata.validate_parameter_fields
    setpoint_ci_mirror.Operation.Metadata.validate_fields
    setpoint_ci_mirror.Operation.Metadata.valid_field_type
catalog_planning = refl

catalog_structured :
    normalize_parameters (codes "aa") (codes "{}") catalog ≡ err (normalizer_required (codes "aa"))
unfolding normalize_parameters register_all setpoint_ci_mirror.Operation.Metadata.validate_metadata
    setpoint_ci_mirror.Operation.Metadata.valid_id setpoint_ci_mirror.Base.Text.trim_space
    setpoint_ci_mirror.Operation.Metadata.valid_risk
    setpoint_ci_mirror.Operation.Metadata.validate_parameters
    setpoint_ci_mirror.Operation.Metadata.validate_secrets
    setpoint_ci_mirror.Operation.Metadata.valid_parameter_type setpoint_ci_mirror.Base.Text.text_beq
    setpoint_ci_mirror.Operation.Metadata.validate_parameter_fields
    setpoint_ci_mirror.Operation.Metadata.validate_fields
    setpoint_ci_mirror.Operation.Metadata.valid_field_type
catalog_structured = refl

register_all-IsListed_example : IsListed catalog (register_all (offered second 4 ∷ []) catalog)
register_all-IsListed_example = register_all-IsListed offers (offered second 4 ∷ [])
