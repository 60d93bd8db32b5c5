-- ===== src/Workspace/Namespace.antt =====
-- internal/core/workspace/namespace.go
pub mod Laws
use otterscale_operator.Common.{
  ℕ, String, Bool, true, false, Option, none, some, ◌&&◌, ◌<>◌, not, if◌then◌else◌,
}
use otterscale_operator.Common.Dict.{Dict, insert, delete, copy}
use otterscale_operator.Common.Exec.{Result, err, Exec, namespace_conflict}
use otterscale_operator.Api.Meta.{ObjectKey, Object, entries}
use otterscale_operator.Api.Workspace.{Workspace}
use otterscale_operator.Api.Owned.{namespaces, named}
use otterscale_operator.Kube.{Kube, with_controller}
use otterscale_operator.Workspace.Helpers.{labels_for_workspace, is_owned}

-- time.Time.IsZero
abbrev pub is_zero : Option ℕ → Bool
is_zero none = true
is_zero (some _) = false

-- NamespaceConflictError.Error
unfoldable pub namespace_conflict_text : String → String
namespace_conflict_text name =
    "namespace " <> (name <> " exists but is not owned by this workspace")

abbrev pub istio_injection : String
istio_injection = "istio-injection"

-- The labels that the mutate function leaves on the namespace.
unfoldable pub namespace_labels : Workspace → String → Bool → Dict String → Dict String
unfolding insert delete copy labels_for_workspace
namespace_labels w version istio_enabled labels =
    let copied = copy labels (labels_for_workspace w.meta.name version) in
    if istio_enabled then insert istio_injection "enabled" copied else delete istio_injection copied

-- The mutate function of `ReconcileNamespace`. A nil map of labels is read as an empty one, and
-- the map that is written is not nil.
unfoldable pub mutate_namespace :
    Kube → Workspace → String → Bool → Object (Unit {0}) → Result (Object (Unit {0}))
unfolding is_owned with_controller
mutate_namespace K w version istio_enabled namespace =
    if not (is_owned namespace.meta.owner_references w.meta.uid)
      && not (is_zero namespace.meta.creation_timestamp)
    then err (namespace_conflict namespace.meta.name)
    else with_controller K w.meta (record namespace {
      meta = record namespace.meta {
        labels = some (namespace_labels w version istio_enabled (entries namespace.meta.labels));
      };
    })

abbrev pub namespace_key : Workspace → ObjectKey
namespace_key w = record { namespace = ""; name = w.body.spec.namespace }

-- The literal of the source.
abbrev pub new_namespace : Workspace → Object (Unit {0})
new_namespace w = named (namespace_key w) tt

unfoldable pub reconcile_namespace :
    (K : Kube) → Workspace → String → Bool → Exec K.State (Unit {0})
reconcile_namespace K w version istio_enabled =
    K.create_or_update namespaces (new_namespace w) (mutate_namespace K w version istio_enabled)
