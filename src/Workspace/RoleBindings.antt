-- ===== src/Workspace/RoleBindings.antt =====
-- internal/core/workspace/rbac.go
pub mod Laws
use otterscale_operator.Common.{
  String, ◌<>◌, ◌==◌, List, [], ◌∷◌, ◌++◌, map, Option, none, some, if◌then◌else◌,
}
use otterscale_operator.Common.Dict.{Dict, lookup, insert}
use otterscale_operator.Common.Exec.{Result, Exec, filter_error, pure, ◌>>=◌, ◌>>◌}
use otterscale_operator.Api.Meta.{ObjectKey, Object}
use otterscale_operator.Api.Workspace.{
  Workspace, WorkspaceMember, MemberRole, member_role_admin, member_role_edit, member_role_view,
}
use otterscale_operator.Api.Owned.{role_bindings, named, Subject, RoleBindingBody}
use otterscale_operator.Kube.{Kube, with_controller}
use otterscale_operator.Workspace.Helpers.{relabel, role_binding_name}

abbrev pub members_of : Option (List WorkspaceMember) → List WorkspaceMember
members_of none = []
members_of (some members) = members

-- The loop that fills the map `membersByRole`. A missing key reads as the nil slice.
unfoldable pub group_members :
    Dict (List WorkspaceMember) → List WorkspaceMember → Dict (List WorkspaceMember)
unfolding lookup insert
group_members groups [] = groups
group_members groups (member ∷ members) =
    group_members
      (insert member.role (members_of (lookup member.role groups) ++ (member ∷ [])) groups) members

-- rbacv1.GroupName
abbrev pub group_name : String
group_name = "rbac.authorization.k8s.io"

abbrev pub user_subject : WorkspaceMember → Subject
user_subject m = record { kind = "User"; api_group = group_name; name = m.subject }

-- The body that the mutate function writes. Its loop appends a subject for each member.
abbrev pub role_binding_body : MemberRole → List WorkspaceMember → RoleBindingBody
role_binding_body role members = record {
  subjects = map user_subject members;
  role_ref = record { kind = "ClusterRole"; api_group = group_name; name = role };
}

abbrev pub empty_role_binding : RoleBindingBody
empty_role_binding = record {
  subjects = [];
  role_ref = record { kind = ""; api_group = ""; name = "" };
}

abbrev pub role_binding_key : Workspace → MemberRole → ObjectKey
role_binding_key w role = record {
  namespace = w.body.spec.namespace;
  name = (role_binding_name <> "-") <> role;
}

unfoldable pub reconcile_role_binding :
    (K : Kube) → Workspace → String → MemberRole → List WorkspaceMember → Exec K.State (Unit {0})
reconcile_role_binding K w version role [] =
    filter_error K.ignore_not_found (K.delete role_bindings (role_binding_key w role))
reconcile_role_binding K w version role (m ∷ members) =
    K.create_or_update role_bindings (named (role_binding_key w role) empty_role_binding)
      (λ binding.
        with_controller K w.meta (relabel w version (role_binding_body role (m ∷ members)) binding))

abbrev pub known_roles : List MemberRole
known_roles = member_role_admin ∷ member_role_edit ∷ member_role_view ∷ []

-- The loop over the known roles, which an error ends.
unfoldable pub reconcile_roles :
    (K : Kube)
    → Workspace
    → String
    → Dict (List WorkspaceMember)
    → List MemberRole
    → Exec K.State (Unit {0})
unfolding reconcile_role_binding
reconcile_roles K w version groups [] = pure tt
reconcile_roles K w version groups (role ∷ roles) = do
  reconcile_role_binding K w version role (members_of (lookup role groups))
  reconcile_roles K w version groups roles

unfoldable pub reconcile_role_bindings : (K : Kube) → Workspace → String → Exec K.State (Unit {0})
unfolding reconcile_roles group_members
reconcile_role_bindings K w version =
    reconcile_roles K w version (group_members [] w.body.spec.members) known_roles
