-- ===== src/Kube.antt =====
-- What the operator calls of the Kubernetes libraries, and none of which is in this repository: the
-- controller-runtime client, over an unknown state of the cluster, and the functions of
-- apimachinery and controllerutil. `Laws` states what the operator relies on of them.
pub mod Laws
pub mod Sync
pub mod Progress
use mathlib.Core.List.{Memᴰ}
use otterscale_operator.Common.{String, ◌≡◌, ◌≢◌, ◌⊎◌, Option, none, some, Bool, true, List}
use otterscale_operator.Common.Exec.{Error, Result, ok, err, Exec}
use otterscale_operator.Api.Meta.{ObjectMeta, ObjectKey, OwnerReference, Object, Condition}
use otterscale_operator.Api.Workspace.{WorkspaceStatus}
use otterscale_operator.Api.Module.{ModuleStatus}
use otterscale_operator.Api.Owned.{Kind, Resource, Body}

pub record Kube : Type 1 where
  pub State : Type 0
  -- What the API server holds. The operator sees it only through the calls below.
  pub lookup : (k : Kind) → ObjectKey → State → Option (Resource k)
  -- What the API server makes of a body that it is sent, by defaulting.
  pub defaulted : (k : Kind) → Body k → Body k
  -- client.Client
  pub get : (k : Kind) → ObjectKey → State → Result (Resource k)
  pub list : (k : Kind) → State → Result (List (Resource k))
  pub delete : (k : Kind) → ObjectKey → Exec State (Unit {0})
  pub patch : (k : Kind) → Resource k → Resource k → Exec State (Resource k)
  pub patch_status : (k : Kind) → Resource k → Resource k → Exec State (Resource k)
  -- controllerutil.CreateOrUpdate: the literal, and the mutate function
  pub create_or_update :
      (k : Kind) → Resource k → (Resource k → Result (Resource k)) → Exec State (Unit {0})
  -- controllerutil.SetControllerReference: the owner, and the metadata of the owned object
  pub set_controller_reference : ObjectMeta → ObjectMeta → Result ObjectMeta
  -- metav1.GetControllerOf, by which SetControllerReference is documented: the first controller
  pub get_controller_of : List OwnerReference → Option OwnerReference
  -- controllerutil.ContainsFinalizer, AddFinalizer, RemoveFinalizer
  pub contains_finalizer : List String → String → Bool
  pub add_finalizer : List String → String → List String
  pub remove_finalizer : List String → String → List String
  -- meta.SetStatusCondition, FindStatusCondition
  pub set_status_condition : List Condition → Condition → List Condition
  pub find_status_condition : List Condition → String → Option Condition
  -- equality.Semantic.DeepEqual at the two types of status
  pub equal_workspace_status : WorkspaceStatus → WorkspaceStatus → Bool
  pub equal_module_status : ModuleStatus → ModuleStatus → Bool
  -- apierrors.IsNotFound, meta.IsNoMatchError, apierrors.ReasonForError, client.IgnoreNotFound
  pub is_not_found : Error → Bool
  pub is_no_match_error : Error → Bool
  pub reason_for_error : Error → String
  pub ignore_not_found : Error → Option Error
  -- the verb `%q` of package fmt
  pub quote : String → String

abbrev pub key_of : ObjectMeta → ObjectKey
key_of m = record { namespace = m.namespace; name = m.name }

-- Two places in the cluster.
abbrev pub Differ : Kind → ObjectKey → Kind → ObjectKey → Type 0
Differ k key k' key' = (k ≢ k') ⊎ (key ≢ key')

-- An object is gone when it is not there, or waits for its finalizers.
abbrev pub IsGone : {B : Type 0} → Option (Object B) → Type 0
IsGone none = Unit {0}
IsGone (some o) = o.meta.deletion_timestamp ≢ none

-- The controller among the references is the owner.
abbrev pub ControlledBy : Kube → ObjectMeta → List OwnerReference → Type 0
ControlledBy K owner refs =
    (r : OwnerReference) × (K.get_controller_of refs ≡ some r)
    × Memᴰ r refs
    × (r.uid ≡ owner.uid)
    × (r.name ≡ owner.name)
    × (r.controller ≡ true)

-- `return ctrlutil.SetControllerReference(owner, o, scheme)` at the end of a mutate function.
abbrev pub replace_meta : {B : Type 0} → Object B → Result ObjectMeta → Result (Object B)
replace_meta o (ok m) = ok (record o { meta = m })
replace_meta o (err e) = err e

unfoldable pub with_controller : (K : Kube) {B : Type 0} → ObjectMeta → Object B → Result (Object B)
with_controller K owner o = replace_meta o (K.set_controller_reference owner o.meta)
