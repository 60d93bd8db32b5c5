-- ===== src/Labels.antt =====
-- internal/core/labels/labels.go
pub mod Laws
pub mod Bounds
use otterscale_operator.Common.{String, [], ◌∷◌, ◌==◌, not, if◌then◌else◌}
use otterscale_operator.Common.Dict.{Dict, insert}

abbrev pub name_label : String
name_label = "app.kubernetes.io/name"

abbrev pub managed_by : String
managed_by = "app.kubernetes.io/managed-by"

abbrev pub part_of : String
part_of = "app.kubernetes.io/part-of"

abbrev pub component_label : String
component_label = "app.kubernetes.io/component"

abbrev pub instance_label : String
instance_label = "app.kubernetes.io/instance"

abbrev pub version_label : String
version_label = "app.kubernetes.io/version"

unfoldable pub standard : String → String → String → String → Dict String
unfolding insert
standard name inst component version =
    let m =
      (instance_label, inst)
      ∷ (component_label, component)
      ∷ (part_of, "otterscale")
      ∷ (managed_by, "otterscale-operator")
      ∷ (version_label, version)
      ∷ [] in
    if not (name == "") then insert name_label name m else m
