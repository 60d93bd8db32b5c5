-- ===== src/Api/Workspace.antt =====
-- api/tenant/v1alpha1/workspace_types.go
use otterscale_operator.Common.{ℕ, String, List, Option, Bool}
use otterscale_operator.Api.Meta.{Document, Object, Condition, ResourceReference}

-- A Go string type with three constants.
abbrev pub MemberRole : Type 0
MemberRole = String

abbrev pub member_role_admin : MemberRole
member_role_admin = "admin"

abbrev pub member_role_edit : MemberRole
member_role_edit = "edit"

abbrev pub member_role_view : MemberRole
member_role_view = "view"

pub record WorkspaceMember : Type 0 where
  pub role : MemberRole
  pub subject : String
  pub name : Option String

pub record NetworkIsolationSpec : Type 0 where
  pub enabled : Bool
  pub allowed_namespaces : List String

pub record WorkspaceSpec : Type 0 where
  pub namespace : String
  pub members : List WorkspaceMember
  pub resource_quota : Option Document
  pub limit_range : Option Document
  pub network_isolation : NetworkIsolationSpec

pub record WorkspaceStatus : Type 0 where
  pub observed_generation : ℕ
  pub namespace_ref : Option ResourceReference
  pub resource_quota_ref : Option ResourceReference
  pub limit_range_ref : Option ResourceReference
  pub role_binding_refs : List ResourceReference
  pub peer_authentication_ref : Option ResourceReference
  pub authorization_policy_ref : Option ResourceReference
  pub network_policy_ref : Option ResourceReference
  pub conditions : List Condition

pub record WorkspaceBody : Type 0 where
  pub spec : WorkspaceSpec
  pub status : WorkspaceStatus

abbrev pub Workspace : Type 0
Workspace = Object WorkspaceBody
