-- ===== src/DeepCopy/Structs.antt =====
-- The structs of the API packages as they lie in memory, with addresses for pointers and slices.
use otterscale_operator.Common.{ℕ, String, Option, List, Bool}
use otterscale_operator.Api.Meta.{ResourceReference}
use otterscale_operator.Api.Workspace.{MemberRole}

-- The structs of other packages, and what else of theirs lies in memory.
pub record Layout : Type 1 where
  pub ObjectMeta : Type 0
  pub ListMeta : Type 0
  pub Condition : Type 0
  pub Json : Type 0
  pub ResourceQuotaSpec : Type 0
  pub LimitRangeSpec : Type 0
  pub HelmReleaseSpec : Type 0
  pub KustomizationSpec : Type 0
  pub Other : Type 0

-- `none` is nil.
abbrev pub Pointer : Type 0
Pointer = Option ℕ

-- A slice that covers its whole array: the address of the array, or nil.
abbrev pub Slice : Type 0
Slice = Option ℕ

pub record TypeMeta : Type 0 where
  pub kind : String
  pub api_version : String

pub record WorkspaceMemberStruct : Type 0 where
  pub role : MemberRole
  pub subject : String
  pub name : Pointer

pub record NetworkIsolationStruct : Type 0 where
  pub enabled : Bool
  pub allowed_namespaces : Slice

pub record WorkspaceSpecStruct : Type 0 where
  pub namespace : String
  pub members : Slice
  pub resource_quota : Pointer
  pub limit_range : Pointer
  pub network_isolation : NetworkIsolationStruct

pub record WorkspaceStatusStruct : Type 0 where
  pub observed_generation : ℕ
  pub namespace_ref : Pointer
  pub resource_quota_ref : Pointer
  pub limit_range_ref : Pointer
  pub role_binding_refs : Slice
  pub peer_authentication_ref : Pointer
  pub authorization_policy_ref : Pointer
  pub network_policy_ref : Pointer
  pub conditions : Slice

pub record ModuleSpecStruct : Type 0 where
  pub template_ref : String
  pub namespace : Pointer
  pub values : Pointer

pub record ModuleStatusStruct : Type 0 where
  pub observed_generation : ℕ
  pub template_generation : ℕ
  pub helm_release_ref : Pointer
  pub kustomization_ref : Pointer
  pub conditions : Slice

pub record ModuleTemplateSpecStruct : Type 0 where
  pub description : String
  pub namespace : String
  pub helm_release : Pointer
  pub kustomization : Pointer

pub record ModuleTemplateStatusStruct : Type 0 where
  pub observed_generation : ℕ
  pub conditions : Slice

-- Workspace, Module and ModuleTemplate: the metadata, a spec and a status.
pub record ObjectStruct (F : Layout) (Spec Status : Type 0) : Type 0 where
  pub type_meta : TypeMeta
  pub object_meta : F.ObjectMeta
  pub spec : Spec
  pub status : Status

-- WorkspaceList, ModuleList and ModuleTemplateList.
pub record ListStruct (F : Layout) : Type 0 where
  pub type_meta : TypeMeta
  pub list_meta : F.ListMeta
  pub items : Slice

abbrev pub WorkspaceStruct : Layout → Type 0
WorkspaceStruct F = ObjectStruct F WorkspaceSpecStruct WorkspaceStatusStruct

abbrev pub ModuleStruct : Layout → Type 0
ModuleStruct F = ObjectStruct F ModuleSpecStruct ModuleStatusStruct

abbrev pub ModuleTemplateStruct : Layout → Type 0
ModuleTemplateStruct F = ObjectStruct F ModuleTemplateSpecStruct ModuleTemplateStatusStruct

-- HelmReleaseTemplateSpec and KustomizationTemplateSpec hold one foreign struct.
pub record HelmReleaseTemplateStruct (F : Layout) : Type 0 where
  pub spec : F.HelmReleaseSpec

pub record KustomizationTemplateStruct (F : Layout) : Type 0 where
  pub spec : F.KustomizationSpec

-- What an element of an array can be.
pub data Value (F : Layout) : Type 0 where
  text : String → Value F
  reference : ResourceReference → Value F
  member : WorkspaceMemberStruct → Value F
  network_isolation : NetworkIsolationStruct → Value F
  workspace_spec : WorkspaceSpecStruct → Value F
  workspace_status : WorkspaceStatusStruct → Value F
  workspace : WorkspaceStruct F → Value F
  module_spec : ModuleSpecStruct → Value F
  module_status : ModuleStatusStruct → Value F
  module_object : ModuleStruct F → Value F
  template_spec : ModuleTemplateSpecStruct → Value F
  template_status : ModuleTemplateStatusStruct → Value F
  template : ModuleTemplateStruct F → Value F
  helm_release : HelmReleaseTemplateStruct F → Value F
  kustomization : KustomizationTemplateStruct F → Value F
  list_of : ListStruct F → Value F
  condition : F.Condition → Value F
  json : F.Json → Value F
  quota : F.ResourceQuotaSpec → Value F
  limits : F.LimitRangeSpec → Value F
  other : F.Other → Value F

-- A memory: what lies at the addresses that are taken, and the next free one. Each is an array, one
-- of length 1 where `new` made it.
pub record Heap (F : Layout) : Type 0 where
  pub next : ℕ
  pub cell : ℕ → Option (List (Value F))
