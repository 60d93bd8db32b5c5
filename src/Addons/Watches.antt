-- ===== src/Addons/Watches.antt =====
-- The functions that map a watched object to requests, of
-- internal/controller/addons/module_controller.go
pub mod Laws
use otterscale_operator.Common.{
  String, Bool, true, false, not, ◌||◌, ◌==◌, List, [], ◌∷◌, Option, none, some, if◌then◌else◌,
}
use otterscale_operator.Common.Dict.{Dict, lookup}
use otterscale_operator.Common.Exec.{Result, ok, err}
use otterscale_operator.Api.Meta.{ObjectKey, StringMap}
use otterscale_operator.Api.Module.{Module}
use otterscale_operator.Api.Owned.{modules}
use otterscale_operator.Kube.{Kube}
use otterscale_operator.Labels.{managed_by, component_label, instance_label}

abbrev pub cluster_key : String → ObjectKey
cluster_key name = record { namespace = ""; name = name }

-- The loop over the Modules.
unfoldable pub requests_for : String → List Module → List ObjectKey
requests_for template_name [] = []
requests_for template_name (m ∷ items) =
    let requests = requests_for template_name items in
    if m.body.spec.template_ref == template_name
    then cluster_key m.meta.name ∷ requests
    else requests

abbrev pub requests_of : String → Result (List Module) → List ObjectKey
requests_of template_name (err _) = []
requests_of template_name (ok items) = requests_for template_name items

unfoldable pub map_module_template_to_modules : (K : Kube) → String → K.State → List ObjectKey
unfolding requests_for
map_module_template_to_modules K template_name s = requests_of template_name (K.list modules s)

-- A missing key reads as the empty string.
abbrev pub value_or_empty : Option String → String
value_or_empty none = ""
value_or_empty (some v) = v

abbrev pub request_for : Option String → List ObjectKey
request_for none = []
request_for (some name) = cluster_key name ∷ []

-- At the labels of the object, which may be nil.
abbrev pub map_labels : StringMap → List ObjectKey
map_labels none = []
map_labels (some labels) =
    if not (value_or_empty (lookup managed_by labels) == "otterscale-operator")
      || not (value_or_empty (lookup component_label labels) == "module")
    then []
    else request_for (lookup instance_label labels)

unfoldable pub map_flux_resource_to_module : StringMap → List ObjectKey
unfolding lookup
map_flux_resource_to_module labels = map_labels labels
