-- ===== src/Addons/Watches/Laws.antt =====
-- Which requests follow from a change of a watched object.
use mathlib.Core.List.{Memᴰ}
use otterscale_operator.Common.{
  String, ◌≡◌, refl, some, true, ◌==◌, ◌↔◌, List, [], ◌∷◌, inl, inr, Bool-cases, eq_iff,
}
use otterscale_operator.Common.Dict.{Dict, copy, lookup-copy}
use otterscale_operator.Common.Exec.{ok}
use otterscale_operator.Api.Meta.{ObjectKey}
use otterscale_operator.Api.Module.{Module}
use otterscale_operator.Api.Owned.{modules}
use otterscale_operator.Kube.{Kube}
use otterscale_operator.Labels.{managed_by, component_label, instance_label}
use otterscale_operator.Labels.Laws.{lookup-standard}
use otterscale_operator.Workspace.Helpers.{labels_for_workspace}
use otterscale_operator.Module.{labels_for_module}
use otterscale_operator.Module.Laws.{lookup-labels_for_module}
use otterscale_operator.Addons.Watches.{
  cluster_key, requests_for, map_module_template_to_modules, map_flux_resource_to_module,
}

-- An object with the labels that a sync of a Module puts on it, whatever labels it had before,
-- leads to a request for that Module and for no other.
pub map_flux_resource_to_module-labelled :
    (before : Dict String) (module_name template_name version : String)
    → map_flux_resource_to_module
        (some (copy before (labels_for_module module_name template_name version)))
      ≡ cluster_key module_name ∷ []
unfolding map_flux_resource_to_module
map_flux_resource_to_module-labelled before m t v =
    let labels = labels_for_module m t v in
    rw (
      lookup-copy managed_by before labels,
      lookup-copy component_label before labels,
      lookup-copy instance_label before labels,
      lookup-labels_for_module m t v managed_by,
      lookup-labels_for_module m t v component_label,
      lookup-labels_for_module m t v instance_label,
    )

-- An object that belongs to a Workspace leads to no request for a Module.
pub map_flux_resource_to_module-workspace :
    (workspace version : String)
    → map_flux_resource_to_module (some (labels_for_workspace workspace version)) ≡ []
unfolding map_flux_resource_to_module labels_for_workspace
map_flux_resource_to_module-workspace w v = rw (
  lookup-standard "" w "workspace" v managed_by,
  lookup-standard "" w "workspace" v component_label,
)

-- One of the Modules has this key and refers to the template.
abbrev pub RefersTo : String → ObjectKey → List Module → Type 0
RefersTo template_name key items =
    (m : Module) × Memᴰ m items
    × (m.body.spec.template_ref ≡ template_name)
    × (key ≡ cluster_key m.meta.name)

tail-RefersTo :
    (name : String) (key : ObjectKey) (m : Module) (items : List Module)
    → RefersTo name key items
    → RefersTo name key (m ∷ items)
tail-RefersTo name key m items (x, i, e, k) = (x, Memᴰ.tail i, e, k)

head-RefersTo :
    (name : String) (key : ObjectKey) (m : Module) (items : List Module)
    → (m.body.spec.template_ref == name) ≡ true
    → (rest : List ObjectKey) → (Memᴰ key rest → RefersTo name key items)
    → Memᴰ key (cluster_key m.meta.name ∷ rest)
    → RefersTo name key (m ∷ items)
head-RefersTo name key m items same rest later (Memᴰ.head e) =
    (m, Memᴰ.head refl, (eq_iff m.body.spec.template_ref name).0 same, e)
head-RefersTo name key m items same rest later (Memᴰ.tail i) =
    tail-RefersTo name key m items (later i)

requests_for_sound :
    (name : String) (key : ObjectKey) (items : List Module)
    → Memᴰ key (requests_for name items)
    → RefersTo name key items
unfolding requests_for
requests_for_sound name key [] i = elim i [ ]
requests_for_sound name key (m ∷ items) i = elim (Bool-cases (m.body.spec.template_ref == name)) [
  | inl same ↦
      head-RefersTo name key m items same (requests_for name items)
        (requests_for_sound name key items) (rw same at i)
  | inr other ↦ tail-RefersTo name key m items (requests_for_sound name key items (rw other at i))
]

requests_for_complete :
    (name : String) (key : ObjectKey) (items : List Module) (m : Module)
    → Memᴰ m items
    → m.body.spec.template_ref ≡ name
    → key ≡ cluster_key m.meta.name
    → Memᴰ key (requests_for name items)
unfolding requests_for
requests_for_complete name key [] m i e k = elim i [ ]
requests_for_complete name key (x ∷ items) m (Memᴰ.head same) e k =
    rw (← same, (eq_iff m.body.spec.template_ref name).1 e) (Memᴰ.head k)
requests_for_complete name key (x ∷ items) m (Memᴰ.tail i) e k =
    let rest = requests_for_complete name key items m i e k in
    elim (Bool-cases (x.body.spec.template_ref == name)) [
      | inl refers ↦ rw refers (Memᴰ.tail rest)
      | inr other ↦ rw other rest
    ]

-- A change of a template leads to a request for a Module exactly when the Module is listed and
-- refers to the template.
pub map_module_template_to_modules_iff :
    (K : Kube) (name : String) (s : K.State) (items : List Module) (key : ObjectKey)
    → K.list modules s ≡ ok items
    → Memᴰ key (map_module_template_to_modules K name s) ↔ RefersTo name key items
unfolding map_module_template_to_modules
map_module_template_to_modules_iff K name s items key listed = rw listed (
  requests_for_sound name key items,
  λ (m, i, e, k). requests_for_complete name key items m i e k,
)
