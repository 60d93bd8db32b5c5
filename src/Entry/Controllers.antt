-- ===== src/Entry/Controllers.antt =====
-- `SetupWithManager` of both controllers, in internal/controller/tenant/workspace_controller.go and
-- internal/controller/addons/module_controller.go: what each one watches, and the functions by
-- which a watched object becomes a request.
use otterscale_operator.Common.{String, Bool, List, [], ◌∷◌, ◌++◌, if◌then◌else◌}
use otterscale_operator.Api.Meta.{ObjectMeta, ObjectKey}
use otterscale_operator.Api.Owned.{
  Kind, namespaces, role_bindings, resource_quotas, limit_ranges, network_policies,
  peer_authentications, authorization_policies, helm_releases, kustomizations, workspaces, modules,
  module_templates,
}
use otterscale_operator.Kube.{Kube}
use otterscale_operator.Controller.{Recorder}
use otterscale_operator.Tenant.Detector.{IstioDetector}
use otterscale_operator.Tenant.Reconcile.{map_crd_to_workspaces}
use otterscale_operator.Addons.Watches.{map_module_template_to_modules, map_flux_resource_to_module}

-- The fields of the two reconcilers, but for the client and the scheme.
pub record WorkspaceReconciler : Type 0 where
  pub version : String
  pub recorder : Recorder
  pub istio_detector : IstioDetector

pub record ModuleReconciler : Type 0 where
  pub version : String
  pub recorder : Recorder

pub data Reconciler : Type 0 where
  workspace : WorkspaceReconciler → Reconciler
  addon : ModuleReconciler → Reconciler

-- predicate.GenerationChangedPredicate, and `istioCRDPredicate`.
pub data Predicate : Type 0 where
  generation_changed istio_crd : Predicate

-- A kind that is watched.
pub data Watched : Type 0 where
  custom_resource_definitions : Watched
  objects : Kind → Watched

pub data Mapping : Type 0 where
  crd_to_workspaces template_to_modules flux_to_module : Mapping

-- `For`, `Owns` and `Watches` of the builder.
pub data Watch : Type 0 where
  for_kind : Kind → List Predicate → Watch
  owns : Kind → Watch
  watches : Watched → Mapping → List Predicate → Watch

pub record Controller : Type 0 where
  pub name : String
  pub watch_list : List Watch
  pub reconciler : Reconciler

-- The handler of `Watches`: the requests that follow from an event on an object.
unfoldable pub enqueue_requests : (K : Kube) → Mapping → ObjectMeta → K.State → List ObjectKey
unfolding map_crd_to_workspaces map_module_template_to_modules map_flux_resource_to_module
enqueue_requests K crd_to_workspaces o s = map_crd_to_workspaces K s
enqueue_requests K template_to_modules o s = map_module_template_to_modules K o.name s
enqueue_requests K flux_to_module o s = map_flux_resource_to_module o.labels

-- The watches that are there in any case.
abbrev pub static_watches : List Watch
static_watches =
    for_kind workspaces (generation_changed ∷ [])
    ∷ owns namespaces
    ∷ owns resource_quotas
    ∷ owns limit_ranges
    ∷ owns role_bindings
    ∷ owns network_policies
    ∷ watches custom_resource_definitions crd_to_workspaces (istio_crd ∷ [])
    ∷ []

abbrev pub istio_watches : Bool → List Watch
istio_watches enabled =
    if enabled then owns peer_authentications ∷ owns authorization_policies ∷ [] else []

-- The detector has made its first refresh.
unfoldable pub setup_workspace_controller : WorkspaceReconciler → IstioDetector → Controller
setup_workspace_controller r detector = record {
  name = "workspace";
  watch_list = static_watches ++ istio_watches detector.enabled;
  reconciler = workspace (record r { istio_detector = detector });
}

unfoldable pub setup_module_controller : ModuleReconciler → Controller
setup_module_controller r = record {
  name = "module";
  watch_list =
      for_kind modules (generation_changed ∷ [])
      ∷ watches (objects module_templates) template_to_modules []
      ∷ watches (objects helm_releases) flux_to_module []
      ∷ watches (objects kustomizations) flux_to_module []
      ∷ [];
  reconciler = addon r;
}
