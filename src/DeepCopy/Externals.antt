-- ===== src/DeepCopy/Externals.antt =====
-- What the packages of other structs provide, and the zero values of the structs.
use otterscale_operator.Common.{none, false}
use otterscale_operator.Common.Exec.{Exec}
use otterscale_operator.DeepCopy.Structs.{
  Layout, TypeMeta, NetworkIsolationStruct, WorkspaceSpecStruct, WorkspaceStatusStruct,
  ModuleSpecStruct, ModuleStatusStruct, ModuleTemplateSpecStruct, ModuleTemplateStatusStruct,
  ObjectStruct, Heap,
}

-- A struct of another package, and its method DeepCopyInto.
pub record External (F : Layout) (A : Type 0) : Type 0 where
  pub zero_value : A
  pub deep_copy_into : A → Exec (Heap F) A

pub record Externals (F : Layout) : Type 0 where
  pub object_meta : External F F.ObjectMeta
  pub list_meta : External F F.ListMeta
  pub condition : External F F.Condition
  pub json : External F F.Json
  pub resource_quota_spec : External F F.ResourceQuotaSpec
  pub limit_range_spec : External F F.LimitRangeSpec
  pub helm_release_spec : External F F.HelmReleaseSpec
  pub kustomization_spec : External F F.KustomizationSpec

abbrev pub zero_type_meta : TypeMeta
zero_type_meta = record { kind = ""; api_version = "" }

abbrev pub zero_network_isolation : NetworkIsolationStruct
zero_network_isolation = record { enabled = false; allowed_namespaces = none }

abbrev pub zero_workspace_spec : WorkspaceSpecStruct
zero_workspace_spec = record {
  namespace = "";
  members = none;
  resource_quota = none;
  limit_range = none;
  network_isolation = zero_network_isolation;
}

abbrev pub zero_workspace_status : WorkspaceStatusStruct
zero_workspace_status = record {
  observed_generation = 0;
  namespace_ref = none;
  resource_quota_ref = none;
  limit_range_ref = none;
  role_binding_refs = none;
  peer_authentication_ref = none;
  authorization_policy_ref = none;
  network_policy_ref = none;
  conditions = none;
}

abbrev pub zero_module_spec : ModuleSpecStruct
zero_module_spec = record { template_ref = ""; namespace = none; values = none }

abbrev pub zero_module_status : ModuleStatusStruct
zero_module_status = record {
  observed_generation = 0;
  template_generation = 0;
  helm_release_ref = none;
  kustomization_ref = none;
  conditions = none;
}

abbrev pub zero_template_spec : ModuleTemplateSpecStruct
zero_template_spec = record {
  description = "";
  namespace = "";
  helm_release = none;
  kustomization = none;
}

abbrev pub zero_template_status : ModuleTemplateStatusStruct
zero_template_status = record { observed_generation = 0; conditions = none }

module _ {F : Layout} (E : Externals F) where
  abbrev pub zero_object : {Spec Status : Type 0} → Spec → Status → ObjectStruct F Spec Status
  zero_object spec status = record {
    type_meta = zero_type_meta;
    object_meta = E.object_meta.zero_value;
    spec = spec;
    status = status;
  }
