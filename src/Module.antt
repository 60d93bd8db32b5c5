-- ===== src/Module.antt =====
-- internal/core/module/helpers.go
pub mod Bounds
pub mod Flux
pub mod Laws
pub mod Spec
use otterscale_operator.Common.{String, Option, none, some}
use otterscale_operator.Common.Dict.{Dict, insert}
use otterscale_operator.Api.Module.{Module, ModuleTemplate}
use otterscale_operator.Labels.{standard}

abbrev pub module_finalizer : String
module_finalizer = "addons.otterscale.io/module-cleanup"

abbrev pub condition_type_ready : String
condition_type_ready = "Ready"

abbrev pub label_module_template : String
label_module_template = "addons.otterscale.io/module-template"

unfoldable pub labels_for_module : String → String → String → Dict String
unfolding insert
labels_for_module module_name template_name version =
    insert label_module_template template_name (standard "" module_name "module" version)

abbrev pub override : {A : Type 0} → Option A → A → A
override none a = a
override (some b) a = b

unfoldable pub target_namespace : Module → ModuleTemplate → String
target_namespace m mt = override m.body.spec.namespace mt.body.spec.namespace
