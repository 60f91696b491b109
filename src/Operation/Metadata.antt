-- ===== src/Operation/Metadata.antt =====
-- app/internal/operation/metadata.go: the description of an operation and its validation.
use setpoint_ci_mirror.Base.{
  ℕ, Bool, true, false, not, ◌&&◌, ◌||◌, List, [], ◌∷◌, Result, ok, err, ◌>>=◌, ◌>>◌, require,
  if◌then◌else◌, leb, eqb, is_empty, length, all, contains,
}
use setpoint_ci_mirror.Base.Text.{Text, codes, text_eq, text_beq, trim_space, is_blank}

-- `RiskLevel` is a string in the source; `other_risk` is any string that is not one of the constants.
pub data RiskLevel : Type 0 where
  low medium high critical : RiskLevel
  other_risk : Text → RiskLevel

pub record ParameterField : Type 0 where
  pub name : Text
  pub type_name : Text
  pub description : Text
  pub required : Bool
  pub options : List Text

pub record Parameter : Type 0 where
  pub name : Text
  pub type_name : Text
  pub description : Text
  pub required : Bool
  pub options : List Text
  pub fields : List ParameterField

pub record SecretRequirement : Type 0 where
  pub id : Text
  pub description : Text
  pub required : Bool

pub record Metadata : Type 0 where
  pub id : Text
  pub category : Text
  pub name : Text
  pub version : Text
  pub description : Text
  pub risk : RiskLevel
  pub impact : Text
  pub supported_systems : List Text
  pub parameters : List Parameter
  pub secret_requirements : List SecretRequirement

pub data MetadataError : Type 0 where
  bad_id name_required category_required version_required unsupported_risk : MetadataError
  system_required parameter_name_required bad_secret_id : MetadataError
  parameter_type_required parameter_type_unsupported duplicate_parameter : Text → MetadataError
  fields_not_allowed fields_required field_name_required : Text → MetadataError
  field_type_unsupported duplicate_field : Text → Text → MetadataError
  duplicate_secret : Text → MetadataError

-- The characters of `validID`.
abbrev pub is_id_character : ℕ → Bool
is_id_character c =
    (leb b'a' c && leb c b'z')
    || (leb b'0' c && leb c b'9')
    || eqb c b'.'
    || eqb c b'_'
    || eqb c b'-'

-- `validID`. `len` counts bytes; an ID that passes the loop has one byte for each character, and a
-- longer byte count comes only with a character that the loop refuses.
unfoldable pub valid_id : Text → Bool
valid_id id = not (is_empty id) && leb (length id) 128 && all is_id_character id

unfoldable pub valid_risk : RiskLevel → Bool
valid_risk (other_risk t) = false
valid_risk _ = true

unfoldable pub valid_parameter_type : Text → Bool
valid_parameter_type kind =
    text_beq kind (codes "string")
    || text_beq kind (codes "string[]")
    || text_beq kind (codes "object")

unfoldable pub valid_field_type : Text → Bool
valid_field_type kind =
    text_beq kind (codes "string")
    || text_beq kind (codes "integer")
    || text_beq kind (codes "boolean")
    || text_beq kind (codes "string[]")

-- The loop of `validateParameterFields`; `seen` is its map.
unfoldable pub validate_fields : Text → List Text → List ParameterField → Result MetadataError Unit
validate_fields parameter seen [] = ok tt
validate_fields parameter seen (f ∷ fs) =
    let name = trim_space f.name in
    let rest = validate_fields parameter (name ∷ seen) fs in
    if is_empty name
    then err (field_name_required parameter)
    else if not (valid_field_type f.type_name)
    then err (field_type_unsupported parameter name)
    else if contains name seen
    then err (duplicate_field parameter name)
    else rest

-- `validateParameterFields`
unfoldable pub validate_parameter_fields : Text → Parameter → Result MetadataError Unit
validate_parameter_fields name p =
    if not (text_beq p.type_name (codes "object"))
    then (if not (is_empty p.fields) then err (fields_not_allowed name) else ok tt)
    else if is_empty p.fields
    then err (fields_required name)
    else validate_fields name [] p.fields

-- The loop over the parameters.
unfoldable pub validate_parameters : List Text → List Parameter → Result MetadataError Unit
validate_parameters seen [] = ok tt
validate_parameters seen (p ∷ ps) =
    let name = trim_space p.name in
    let rest = validate_parameter_fields name p >>= λ _. validate_parameters (name ∷ seen) ps in
    if is_empty name
    then err parameter_name_required
    else if is_blank p.type_name
    then err (parameter_type_required name)
    else if not (valid_parameter_type p.type_name)
    then err (parameter_type_unsupported name)
    else if contains name seen
    then err (duplicate_parameter name)
    else rest

-- The loop over the secret requirements.
unfoldable pub validate_secrets : List Text → List SecretRequirement → Result MetadataError Unit
validate_secrets seen [] = ok tt
validate_secrets seen (r ∷ rs) =
    let rest = validate_secrets (r.id ∷ seen) rs in
    if not (valid_id r.id)
    then err bad_secret_id
    else if contains r.id seen
    then err (duplicate_secret r.id)
    else rest

-- `ValidateMetadata`
unfoldable pub validate_metadata : Metadata → Result MetadataError Unit
validate_metadata m = do
  require (valid_id m.id) bad_id
  require (not (is_blank m.name)) name_required
  require (not (is_blank m.category)) category_required
  require (not (is_blank m.version)) version_required
  require (valid_risk m.risk) unsupported_risk
  require (not (is_empty m.supported_systems)) system_required
  validate_parameters [] m.parameters
  validate_secrets [] m.secret_requirements
