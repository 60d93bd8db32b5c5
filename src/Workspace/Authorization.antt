-- ===== src/Workspace/Authorization.antt =====
-- internal/core/workspace/authorization.go
pub mod Laws
use otterscale_operator.Common.{
  String, ◌<>◌, Bool, false, List, [], ◌∷◌, ◌==◌, ◌||◌, ◌&&◌, if◌then◌else◌,
}
use otterscale_operator.Common.Exec.{Result, ok, err, not_workspace_admin}
use otterscale_operator.Api.Workspace.{Workspace, WorkspaceMember, member_role_admin}

-- authenticationv1.UserInfo
pub record UserInfo : Type 0 where
  pub username : String
  pub groups : List String

unfoldable pub operator_service_account_identity : String → String → String
operator_service_account_identity namespace sa_name =
    "system:serviceaccount:" <> (namespace <> (":" <> sa_name))

abbrev pub privileged_groups : List String
privileged_groups = "system:masters" ∷ "kubeadm:cluster-admins" ∷ []

-- slices.Contains
abbrev pub contains : List String → String → Bool
contains [] g = false
contains (x ∷ xs) g = x == g || contains xs g

unfoldable pub any_privileged : List String → Bool
any_privileged [] = false
any_privileged (g ∷ groups) = contains privileged_groups g || any_privileged groups

unfoldable pub is_privileged : UserInfo → Bool
unfolding any_privileged
is_privileged user_info = any_privileged user_info.groups

unfoldable pub any_admin : String → List WorkspaceMember → Bool
any_admin username [] = false
any_admin username (m ∷ members) =
    (m.subject == username && m.role == member_role_admin) || any_admin username members

unfoldable pub is_workspace_admin : String → Workspace → Bool
unfolding any_admin
is_workspace_admin username workspace = any_admin username workspace.body.spec.members

unfoldable pub authorize_modification : UserInfo → Workspace → String → Result (Unit {0})
unfolding is_privileged is_workspace_admin
authorize_modification user_info workspace operator_sa =
    if is_privileged user_info
    then ok tt
    else if user_info.username == operator_sa
    then ok tt
    else if is_workspace_admin user_info.username workspace
    then ok tt
    else err not_workspace_admin
