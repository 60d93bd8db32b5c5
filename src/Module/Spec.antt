-- ===== src/Module/Spec.antt =====
-- What a Module asks for with its template, written apart from how internal/core/module writes it.
use otterscale_operator.Common.{String, Option, none, some, [], ◌∷◌}
use otterscale_operator.Common.Dict.{Dict}
use otterscale_operator.Api.Meta.{ObjectKey}
use otterscale_operator.Api.Module.{
  Module, ModuleTemplate, HelmReleaseSpec, HelmReleaseTemplateSpec,
}

-- What the Module says, and what the template says where the Module says nothing.
abbrev pub own_or : {A : Type 0} → Option A → A → A
own_or (some own) given = own
own_or none given = given

abbrev pub own_or_none : {A : Type 0} → Option A → Option A → Option A
own_or_none (some own) given = some own
own_or_none none given = given

-- Where the Flux object is: in the namespace of the Module, or else of the template.
abbrev pub flux_place : Module → ModuleTemplate → ObjectKey
flux_place m mt = record {
  namespace = own_or m.body.spec.namespace mt.body.spec.namespace;
  name = m.meta.name;
}

abbrev pub flux_labels : Module → ModuleTemplate → String → Dict String
flux_labels m mt version =
    ("addons.otterscale.io/module-template", mt.meta.name)
    ∷ ("app.kubernetes.io/instance", m.meta.name)
    ∷ ("app.kubernetes.io/component", "module")
    ∷ ("app.kubernetes.io/part-of", "otterscale")
    ∷ ("app.kubernetes.io/managed-by", "otterscale-operator")
    ∷ ("app.kubernetes.io/version", version)
    ∷ []

-- The release of the template, with the values of the Module if it has any.
abbrev pub release_spec : Module → HelmReleaseTemplateSpec → HelmReleaseSpec
release_spec m template = record {
  values = own_or_none m.body.spec.values template.spec.values;
  rest = template.spec.rest;
}
