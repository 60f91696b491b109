-- ===== src/Operation/Target.antt =====
-- app/internal/operation/metadata.go: targets and their validation.
use setpoint_ci_mirror.Base.{◌&&◌, ◌||◌, Result, ok, err, if◌then◌else◌}
use setpoint_ci_mirror.Base.Text.{Text, codes, is_blank}

-- `TargetKind` is a string in the source; `other_kind` is any string that is not one of the constants.
pub data TargetKind : Type 0 where
  site node component data_object : TargetKind
  other_kind : Text → TargetKind

abbrev pub kind_text : TargetKind → Text
kind_text site = codes "site"
kind_text node = codes "node"
kind_text component = codes "component"
kind_text data_object = codes "data_object"
kind_text (other_kind t) = t

pub record Target : Type 0 where
  pub kind : TargetKind
  pub site_id : Text
  pub node_id : Text
  pub component_name : Text
  pub resource : Text

pub data TargetError : Type 0 where
  site_requires_site_id node_requires_node_id component_requires_component : TargetError
  component_requires_owner data_object_requires_names : TargetError
  unsupported_kind : Text → TargetError

validate_kind : TargetKind → Target → Result TargetError Unit
validate_kind site t = if is_blank t.site_id then err site_requires_site_id else ok tt
validate_kind node t = if is_blank t.node_id then err node_requires_node_id else ok tt
validate_kind component t =
    if is_blank t.component_name
    then err component_requires_component
    else if is_blank t.site_id && is_blank t.node_id
    then err component_requires_owner
    else ok tt
validate_kind data_object t =
    if is_blank t.component_name || is_blank t.resource
    then err data_object_requires_names
    else ok tt
validate_kind (other_kind k) t = err (unsupported_kind k)

-- `ValidateTarget`
unfoldable pub validate_target : Target → Result TargetError Unit
unfolding validate_kind
validate_target t = validate_kind t.kind t
