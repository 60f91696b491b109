-- ===== src/Operation/Registry.antt =====
-- app/internal/operation/registry.go: the operations that a server or an agent offers. A candidate says
-- which of the optional interfaces it has; a Go map is a list of pairs whose first entry counts. The
-- mutex makes each method one step.
pub mod Catalog
use setpoint_ci_mirror.Base.{
  Bool, true, false, not, ◌||◌, Option, none, some, List, [], ◌∷◌, Result, ok, err, ◌>>=◌, ◌>>◌,
  require, ◌==◌, find, contains, map, if◌then◌else◌,
}
use setpoint_ci_mirror.Base.Text.{Text, codes, text_eq}
use setpoint_ci_mirror.Base.Text.Sort.{sort_by}
use setpoint_ci_mirror.Operation.Metadata.{Metadata, MetadataError, Parameter, validate_metadata}

pub data RegistryError : Type 0 where
  descriptor_required : RegistryError
  invalid_metadata : MetadataError → RegistryError
  duplicate_operation normalizer_required : Text → RegistryError
  normalizer_failed : Text → RegistryError

-- The method of a `ParameterNormalizer`
abbrev pub Normalizer : Type 0
Normalizer = Text → Result Text Text

-- A `Descriptor`, with the planning definition, the operation definition and the normalizer that it is
pub record Candidate (P D : Type 0) : Type 0 where
  pub metadata : Metadata
  pub planning : Option P
  pub definition : Option D
  pub normalizer : Option Normalizer

-- `Registry`
pub record OperationRegistry (P D : Type 0) : Type 0 where
  pub metadata : List Metadata
  pub planning : List (Text × P)
  pub definitions : List (Text × D)
  pub normalizers : List (Text × Normalizer)

abbrev pub lookup : {A : Type 0} → Text → List (Text × A) → Option A
lookup id [] = none
lookup id (e ∷ es) = if e.0 == id then some e.1 else lookup id es

-- An assignment to a map, where there is a value
abbrev pub put : {A : Type 0} → Text → Option A → List (Text × A) → List (Text × A)
put id none es = es
put id (some a) es = (id, a) ∷ es

abbrev pub checked_metadata : Result MetadataError Unit → Result RegistryError Unit
checked_metadata (ok u) = ok u
checked_metadata (err e) = err (invalid_metadata e)

-- Does an operation take a structured parameter?
abbrev pub has_object : List Parameter → Bool
has_object [] = false
has_object (p ∷ ps) = p.type_name == codes "object" || has_object ps

abbrev pub id_of : Metadata → Text
id_of m = m.id

abbrev pub by_id : Text → List Metadata → Option Metadata
by_id id ms = find (λ (m : Metadata). m.id == id) ms

abbrev pub is_registered : Text → List Metadata → Bool
is_registered id ms = contains id (map id_of ms)

abbrev pub from_normalizer : Result Text Text → Result RegistryError Text
from_normalizer (ok out) = ok out
from_normalizer (err e) = err (normalizer_failed e)

abbrev pub normalized :
    Text → Text → Option Metadata → Option Normalizer → Result RegistryError Text
normalized id parameters known (some normalizer) = from_normalizer (normalizer parameters)
normalized id parameters none none = ok parameters
normalized id parameters (some m) none =
    if has_object m.parameters then err (normalizer_required id) else ok parameters

module _ {P D : Type 0} where
  -- `NewRegistry`
  abbrev pub new_operations : OperationRegistry P D
  new_operations = record { metadata = []; planning = []; definitions = []; normalizers = [] }

  -- `Register`; a nil candidate is `none`.
  unfoldable pub register :
      Option (Candidate P D) → OperationRegistry P D → Result RegistryError (OperationRegistry P D)
  register none r = err descriptor_required
  register (some c) r = do
    checked_metadata (validate_metadata c.metadata)
    require (not (is_registered c.metadata.id r.metadata)) (duplicate_operation c.metadata.id)
    ok (record {
      metadata = c.metadata ∷ r.metadata;
      planning = put c.metadata.id c.planning r.planning;
      definitions = put c.metadata.id c.definition r.definitions;
      normalizers = put c.metadata.id c.normalizer r.normalizers;
    })

  -- `Get`
  unfoldable pub get_metadata : Text → OperationRegistry P D → Option Metadata
  get_metadata id r = by_id id r.metadata

  -- `PlanningDefinition`
  unfoldable pub planning_definition : Text → OperationRegistry P D → Option P
  planning_definition id r = lookup id r.planning

  -- `Definition`
  unfoldable pub operation_definition : Text → OperationRegistry P D → Option D
  operation_definition id r = lookup id r.definitions

  -- `List`
  unfoldable pub list_metadata : OperationRegistry P D → List Metadata
  list_metadata r = sort_by id_of r.metadata

  -- `NormalizeParameters`
  unfoldable pub normalize_parameters :
      Text → Text → OperationRegistry P D → Result RegistryError Text
  unfolding get_metadata
  normalize_parameters id parameters r =
      normalized id parameters (get_metadata id r) (lookup id r.normalizers)

  -- Registrations in turn, where a refused one changes nothing
  abbrev pub registered :
      OperationRegistry P D → Result RegistryError (OperationRegistry P D) → OperationRegistry P D
  registered r (ok r') = r'
  registered r (err e) = r

  unfoldable pub register_all :
      List (Option (Candidate P D)) → OperationRegistry P D → OperationRegistry P D
  unfolding register
  register_all [] r = r
  register_all (c ∷ cs) r = register_all cs (registered r (register c r))
