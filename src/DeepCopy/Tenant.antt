-- ===== src/DeepCopy/Tenant.antt =====
-- api/tenant/v1alpha1/zz_generated.deepcopy.go
pub mod Laws
use otterscale_operator.Common.Exec.{Exec, pure, ◌>>=◌}
use otterscale_operator.Api.Meta.{ResourceReference}
use otterscale_operator.DeepCopy.Structs.{
  Layout, Pointer, Heap, WorkspaceMemberStruct, NetworkIsolationStruct, WorkspaceSpecStruct,
  WorkspaceStatusStruct, WorkspaceStruct, ListStruct,
}
use otterscale_operator.DeepCopy.Memory.{
  copy_pointer, copy_slice, copy_object, RuntimeObject, workspace_type, workspace_list_type,
}
use otterscale_operator.DeepCopy.Externals.{Externals}
use otterscale_operator.DeepCopy.Stored.{
  stored_text, stored_reference, stored_member, stored_network_isolation, stored_workspace_spec,
  stored_workspace_status, stored_workspace, stored_list, stored_condition, stored_quota,
  stored_limits,
}

module _ {F : Layout} where
  unfoldable pub network_isolation_deep_copy_into :
      NetworkIsolationStruct → Exec (Heap F) NetworkIsolationStruct
  unfolding copy_slice
  network_isolation_deep_copy_into v = do
    allowed_namespaces ← copy_slice stored_text pure v.allowed_namespaces
    pure (record v { allowed_namespaces = allowed_namespaces })

  unfoldable pub network_isolation_deep_copy : Pointer → Exec (Heap F) Pointer
  unfolding copy_pointer network_isolation_deep_copy_into
  network_isolation_deep_copy =
      copy_pointer stored_network_isolation network_isolation_deep_copy_into

  unfoldable pub resource_reference_deep_copy_into :
      ResourceReference → Exec (Heap F) ResourceReference
  resource_reference_deep_copy_into v = pure v

  unfoldable pub resource_reference_deep_copy : Pointer → Exec (Heap F) Pointer
  unfolding copy_pointer resource_reference_deep_copy_into
  resource_reference_deep_copy = copy_pointer stored_reference resource_reference_deep_copy_into

  unfoldable pub workspace_member_deep_copy_into :
      WorkspaceMemberStruct → Exec (Heap F) WorkspaceMemberStruct
  unfolding copy_pointer
  workspace_member_deep_copy_into v = do
    name ← copy_pointer stored_text pure v.name
    pure (record v { name = name })

  unfoldable pub workspace_member_deep_copy : Pointer → Exec (Heap F) Pointer
  unfolding copy_pointer workspace_member_deep_copy_into
  workspace_member_deep_copy = copy_pointer stored_member workspace_member_deep_copy_into

module _ {F : Layout} (E : Externals F) where
  unfoldable pub workspace_spec_deep_copy_into :
      WorkspaceSpecStruct → Exec (Heap F) WorkspaceSpecStruct
  unfolding copy_pointer copy_slice workspace_member_deep_copy_into network_isolation_deep_copy_into
  workspace_spec_deep_copy_into v = do
    members ← copy_slice stored_member workspace_member_deep_copy_into v.members
    resource_quota ←
        copy_pointer (stored_quota E) E.resource_quota_spec.deep_copy_into v.resource_quota
    limit_range ← copy_pointer (stored_limits E) E.limit_range_spec.deep_copy_into v.limit_range
    network_isolation ← network_isolation_deep_copy_into v.network_isolation
    pure (record v {
      members = members;
      resource_quota = resource_quota;
      limit_range = limit_range;
      network_isolation = network_isolation;
    })

  unfoldable pub workspace_spec_deep_copy : Pointer → Exec (Heap F) Pointer
  unfolding copy_pointer workspace_spec_deep_copy_into
  workspace_spec_deep_copy = copy_pointer stored_workspace_spec workspace_spec_deep_copy_into

  unfoldable pub workspace_status_deep_copy_into :
      WorkspaceStatusStruct → Exec (Heap F) WorkspaceStatusStruct
  unfolding copy_pointer copy_slice
  workspace_status_deep_copy_into v = do
    namespace_ref ← copy_pointer stored_reference pure v.namespace_ref
    resource_quota_ref ← copy_pointer stored_reference pure v.resource_quota_ref
    limit_range_ref ← copy_pointer stored_reference pure v.limit_range_ref
    role_binding_refs ← copy_slice stored_reference pure v.role_binding_refs
    peer_authentication_ref ← copy_pointer stored_reference pure v.peer_authentication_ref
    authorization_policy_ref ← copy_pointer stored_reference pure v.authorization_policy_ref
    network_policy_ref ← copy_pointer stored_reference pure v.network_policy_ref
    conditions ← copy_slice (stored_condition E) E.condition.deep_copy_into v.conditions
    pure (record v {
      namespace_ref = namespace_ref;
      resource_quota_ref = resource_quota_ref;
      limit_range_ref = limit_range_ref;
      role_binding_refs = role_binding_refs;
      peer_authentication_ref = peer_authentication_ref;
      authorization_policy_ref = authorization_policy_ref;
      network_policy_ref = network_policy_ref;
      conditions = conditions;
    })

  unfoldable pub workspace_status_deep_copy : Pointer → Exec (Heap F) Pointer
  unfolding copy_pointer workspace_status_deep_copy_into
  workspace_status_deep_copy = copy_pointer stored_workspace_status workspace_status_deep_copy_into

  unfoldable pub workspace_deep_copy_into : WorkspaceStruct F → Exec (Heap F) (WorkspaceStruct F)
  unfolding workspace_spec_deep_copy_into workspace_status_deep_copy_into
  workspace_deep_copy_into v = do
    object_meta ← E.object_meta.deep_copy_into v.object_meta
    spec ← workspace_spec_deep_copy_into v.spec
    status ← workspace_status_deep_copy_into v.status
    pure (record v { object_meta = object_meta; spec = spec; status = status })

  unfoldable pub workspace_deep_copy : Pointer → Exec (Heap F) Pointer
  unfolding copy_pointer workspace_deep_copy_into
  workspace_deep_copy = copy_pointer (stored_workspace E) workspace_deep_copy_into

  unfoldable pub workspace_deep_copy_object : Pointer → Exec (Heap F) RuntimeObject
  unfolding workspace_deep_copy
  workspace_deep_copy_object p = copy_object workspace_type (workspace_deep_copy p)

  unfoldable pub workspace_list_deep_copy_into : ListStruct F → Exec (Heap F) (ListStruct F)
  unfolding copy_slice workspace_deep_copy_into
  workspace_list_deep_copy_into v = do
    list_meta ← E.list_meta.deep_copy_into v.list_meta
    items ← copy_slice (stored_workspace E) workspace_deep_copy_into v.items
    pure (record v { list_meta = list_meta; items = items })

  unfoldable pub workspace_list_deep_copy : Pointer → Exec (Heap F) Pointer
  unfolding copy_pointer workspace_list_deep_copy_into
  workspace_list_deep_copy = copy_pointer (stored_list E) workspace_list_deep_copy_into

  unfoldable pub workspace_list_deep_copy_object : Pointer → Exec (Heap F) RuntimeObject
  unfolding workspace_list_deep_copy
  workspace_list_deep_copy_object p = copy_object workspace_list_type (workspace_list_deep_copy p)
