-- ===== src/DeepCopy/Tenant/Laws.antt =====
-- The deep copies of api/tenant/v1alpha1 copy: what each struct holds, and that the copy holds it in
-- new memory.
use otterscale_operator.Common.{◌≡◌}
use otterscale_operator.Api.Workspace.{
  Workspace, WorkspaceMember, NetworkIsolationSpec, WorkspaceSpec, WorkspaceStatus,
}
use otterscale_operator.DeepCopy.Structs.{
  Layout, TypeMeta, WorkspaceMemberStruct, NetworkIsolationStruct, WorkspaceSpecStruct,
  WorkspaceStatusStruct, WorkspaceStruct, ListStruct,
}
use otterscale_operator.DeepCopy.Externals.{Externals}
use otterscale_operator.DeepCopy.Stored.{
  stored_text, stored_reference, stored_member, stored_workspace, stored_condition, stored_quota,
  stored_limits,
}
use otterscale_operator.DeepCopy.Holds.{
  Holding, Plain, TextHolds, ReferenceHolds, Points, Slices, Copying, Extends-refl, copy_step,
  copy_end,
}
use otterscale_operator.DeepCopy.Blocks.{
  plain-Copying, pointer-Copying, text-Copying, reference-Copying,
}
use otterscale_operator.DeepCopy.Slices.{slice-Copying}
use otterscale_operator.DeepCopy.ExternalLaws.{ExternalLaws, ListContent}
use otterscale_operator.DeepCopy.Tenant.{
  network_isolation_deep_copy_into, workspace_member_deep_copy_into, workspace_spec_deep_copy_into,
  workspace_status_deep_copy_into, workspace_deep_copy_into, workspace_list_deep_copy_into,
}

module _ {F : Layout} where
  abbrev pub NetworkHolds : Holding F NetworkIsolationStruct NetworkIsolationSpec
  NetworkHolds lo hi h v c =
      (v.enabled ≡ c.enabled)
      × Slices Plain stored_text lo hi h v.allowed_namespaces c.allowed_namespaces

  abbrev pub MemberHolds : Holding F WorkspaceMemberStruct WorkspaceMember
  MemberHolds lo hi h v c =
      (v.role ≡ c.role) × (v.subject ≡ c.subject) × TextHolds lo hi h v.name c.name

  pub network_isolation-Copying : Copying NetworkHolds network_isolation_deep_copy_into
  unfolding network_isolation_deep_copy_into
  network_isolation-Copying = record {
    local = λ lo hi lo2 hi2 h h2 v c l u e (p0, p1).
        (p0, (slice-Copying stored_text plain-Copying).local lo hi lo2 hi2 h h2 _ _ l u e p1);
    copies = λ lo hi h v c (p0, p1) below.
        copy_step (slice-Copying stored_text plain-Copying) lo hi h h _ _ p1 below (Extends-refl h)
          λ b1 h1 e1. copy_end _ h1 (λ d1. (p0, d1));
  }

  pub workspace_member-Copying : Copying MemberHolds workspace_member_deep_copy_into
  unfolding workspace_member_deep_copy_into
  workspace_member-Copying = record {
    local = λ lo hi lo2 hi2 h h2 v c l u e (p0, p1, p2).
        (p0, p1, (text-Copying).local lo hi lo2 hi2 h h2 _ _ l u e p2);
    copies = λ lo hi h v c (p0, p1, p2) below.
        copy_step (text-Copying) lo hi h h _ _ p2 below (Extends-refl h)
          λ b1 h1 e1. copy_end _ h1 (λ d1. (p0, p1, d1));
  }

module _ {F : Layout} (E : Externals F) (L : ExternalLaws E) where
  abbrev pub SpecHolds : Holding F WorkspaceSpecStruct WorkspaceSpec
  SpecHolds lo hi h v c =
      (v.namespace ≡ c.namespace)
      × Slices MemberHolds stored_member lo hi h v.members c.members
      × Points L.QuotaHolds (stored_quota E) lo hi h v.resource_quota c.resource_quota
      × Points L.LimitsHolds (stored_limits E) lo hi h v.limit_range c.limit_range
      × NetworkHolds lo hi h v.network_isolation c.network_isolation

  abbrev pub StatusHolds : Holding F WorkspaceStatusStruct WorkspaceStatus
  StatusHolds lo hi h v c =
      (v.observed_generation ≡ c.observed_generation)
      × ReferenceHolds lo hi h v.namespace_ref c.namespace_ref
      × ReferenceHolds lo hi h v.resource_quota_ref c.resource_quota_ref
      × ReferenceHolds lo hi h v.limit_range_ref c.limit_range_ref
      × Slices Plain stored_reference lo hi h v.role_binding_refs c.role_binding_refs
      × ReferenceHolds lo hi h v.peer_authentication_ref c.peer_authentication_ref
      × ReferenceHolds lo hi h v.authorization_policy_ref c.authorization_policy_ref
      × ReferenceHolds lo hi h v.network_policy_ref c.network_policy_ref
      × Slices L.ConditionHolds (stored_condition E) lo hi h v.conditions c.conditions

  abbrev pub WorkspaceHolds : Holding F (WorkspaceStruct F) (TypeMeta × Workspace)
  WorkspaceHolds lo hi h v (t, c) =
      (v.type_meta ≡ t)
      × L.ObjectMetaHolds lo hi h v.object_meta c.meta
      × SpecHolds lo hi h v.spec c.body.spec
      × StatusHolds lo hi h v.status c.body.status

  abbrev pub WorkspaceListHolds : Holding F (ListStruct F) (ListContent (TypeMeta × Workspace))
  WorkspaceListHolds lo hi h v c =
      (v.type_meta ≡ c.type_meta)
      × L.ListMetaHolds lo hi h v.list_meta c.list_meta
      × Slices WorkspaceHolds (stored_workspace E) lo hi h v.items c.items

  pub workspace_spec-Copying : Copying SpecHolds (workspace_spec_deep_copy_into E)
  unfolding workspace_spec_deep_copy_into
  workspace_spec-Copying = record {
    local = λ lo hi lo2 hi2 h h2 v c l u e (p0, p1, p2, p3, p4). (
      p0,
      (slice-Copying stored_member workspace_member-Copying).local lo hi lo2 hi2 h h2 _ _ l u e p1,
      (pointer-Copying (stored_quota E) L.quota_copying).local lo hi lo2 hi2 h h2 _ _ l u e p2,
      (pointer-Copying (stored_limits E) L.limits_copying).local lo hi lo2 hi2 h h2 _ _ l u e p3,
      (network_isolation-Copying).local lo hi lo2 hi2 h h2 _ _ l u e p4,
    );
    copies = λ lo hi h v c (p0, p1, p2, p3, p4) below.
        copy_step (slice-Copying stored_member workspace_member-Copying) lo hi h h _ _ p1 below
          (Extends-refl h)
          λ b1 h1 e1.
            copy_step (pointer-Copying (stored_quota E) L.quota_copying) lo hi h h1 _ _ p2 below e1
              λ b2 h2 e2.
                copy_step (pointer-Copying (stored_limits E) L.limits_copying) lo hi h h2 _ _ p3
                  below e2
                  λ b3 h3 e3.
                    copy_step (network_isolation-Copying) lo hi h h3 _ _ p4 below e3
                      λ b4 h4 e4. copy_end _ h4 (λ d4 d3 d2 d1. (p0, d1, d2, d3, d4));
  }

  pub workspace_status-Copying : Copying StatusHolds (workspace_status_deep_copy_into E)
  unfolding workspace_status_deep_copy_into
  workspace_status-Copying = record {
    local = λ lo hi lo2 hi2 h h2 v c l u e (p0, p1, p2, p3, p4, p5, p6, p7, p8). (
      p0,
      (reference-Copying).local lo hi lo2 hi2 h h2 _ _ l u e p1,
      (reference-Copying).local lo hi lo2 hi2 h h2 _ _ l u e p2,
      (reference-Copying).local lo hi lo2 hi2 h h2 _ _ l u e p3,
      (slice-Copying stored_reference plain-Copying).local lo hi lo2 hi2 h h2 _ _ l u e p4,
      (reference-Copying).local lo hi lo2 hi2 h h2 _ _ l u e p5,
      (reference-Copying).local lo hi lo2 hi2 h h2 _ _ l u e p6,
      (reference-Copying).local lo hi lo2 hi2 h h2 _ _ l u e p7,
      (slice-Copying (stored_condition E) L.condition_copying).local lo hi lo2 hi2 h h2 _ _ l u e
          p8,
    );
    copies = λ lo hi h v c (p0, p1, p2, p3, p4, p5, p6, p7, p8) below.
        copy_step (reference-Copying) lo hi h h _ _ p1 below (Extends-refl h) λ b1 h1 e1.
          copy_step (reference-Copying) lo hi h h1 _ _ p2 below e1 λ b2 h2 e2.
            copy_step (reference-Copying) lo hi h h2 _ _ p3 below e2 λ b3 h3 e3.
              copy_step (slice-Copying stored_reference plain-Copying) lo hi h h3 _ _ p4 below e3
                λ b4 h4 e4. copy_step (reference-Copying) lo hi h h4 _ _ p5 below e4 λ b5 h5 e5.
                  copy_step (reference-Copying) lo hi h h5 _ _ p6 below e5 λ b6 h6 e6.
                    copy_step (reference-Copying) lo hi h h6 _ _ p7 below e6 λ b7 h7 e7.
                      copy_step (slice-Copying (stored_condition E) L.condition_copying) lo hi h h7
                        _ _ p8 below e7
                        λ b8 h8 e8.
                          copy_end _ h8
                            (λ d8 d7 d6 d5 d4 d3 d2 d1. (p0, d1, d2, d3, d4, d5, d6, d7, d8));
  }

  pub workspace-Copying : Copying WorkspaceHolds (workspace_deep_copy_into E)
  unfolding workspace_deep_copy_into
  workspace-Copying = record {
    local = λ lo hi lo2 hi2 h h2 v c l u e (p0, p1, p2, p3). (
      p0,
      (L.object_meta_copying).local lo hi lo2 hi2 h h2 _ _ l u e p1,
      (workspace_spec-Copying).local lo hi lo2 hi2 h h2 _ _ l u e p2,
      (workspace_status-Copying).local lo hi lo2 hi2 h h2 _ _ l u e p3,
    );
    copies = λ lo hi h v c (p0, p1, p2, p3) below.
        copy_step (L.object_meta_copying) lo hi h h _ _ p1 below (Extends-refl h) λ b1 h1 e1.
          copy_step (workspace_spec-Copying) lo hi h h1 _ _ p2 below e1 λ b2 h2 e2.
            copy_step (workspace_status-Copying) lo hi h h2 _ _ p3 below e2
              λ b3 h3 e3. copy_end _ h3 (λ d3 d2 d1. (p0, d1, d2, d3));
  }

  pub workspace_list-Copying : Copying WorkspaceListHolds (workspace_list_deep_copy_into E)
  unfolding workspace_list_deep_copy_into
  workspace_list-Copying = record {
    local = λ lo hi lo2 hi2 h h2 v c l u e (p0, p1, p2). (
      p0,
      (L.list_meta_copying).local lo hi lo2 hi2 h h2 _ _ l u e p1,
      (slice-Copying (stored_workspace E) workspace-Copying).local lo hi lo2 hi2 h h2 _ _ l u e p2,
    );
    copies = λ lo hi h v c (p0, p1, p2) below.
        copy_step (L.list_meta_copying) lo hi h h _ _ p1 below (Extends-refl h) λ b1 h1 e1.
          copy_step (slice-Copying (stored_workspace E) workspace-Copying) lo hi h h1 _ _ p2 below
            e1 λ b2 h2 e2. copy_end _ h2 (λ d2 d1. (p0, d1, d2));
  }
