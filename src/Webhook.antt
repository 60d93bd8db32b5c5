-- ===== src/Webhook.antt =====
-- internal/webhook/tenant/v1alpha1/workspace_webhook.go
pub mod Laws
pub mod Requests
use otterscale_operator.Common.{
  String, ◌<>◌, Bool, true, false, not, ◌&&◌, List, [], ◌∷◌, Option, none, some, starts_with,
}
use otterscale_operator.Common.Dict.{Dict, lookup, insert, delete_where}
use otterscale_operator.Common.Exec.{Result, ok, err, no_admission_request}
use otterscale_operator.Api.Meta.{entries}
use otterscale_operator.Api.Workspace.{Workspace, WorkspaceMember}
use otterscale_operator.Workspace.Helpers.{user_label_prefix}
use otterscale_operator.Workspace.Authorization.{UserInfo, authorize_modification}

-- admission.Request, as far as it is read.
pub record AdmissionRequest : Type 0 where
  pub user_info : UserInfo

abbrev pub user_label : String → String
user_label subject = user_label_prefix <> subject

-- `desired[ws.UserLabelPrefix+m.Subject] = struct{}{}`, for each member in turn.
unfoldable pub desired_labels : Dict (Unit {0}) → List WorkspaceMember → Dict (Unit {0})
unfolding insert
desired_labels desired [] = desired
desired_labels desired (m ∷ members) =
    desired_labels (insert (user_label m.subject) tt desired) members

-- `_, ok := m[k]`
abbrev pub is_present : {V : Type 0} → Option V → Bool
is_present none = false
is_present (some _) = true

-- A user label that is not desired.
unfoldable pub is_stale : Dict (Unit {0}) → String → Bool
unfolding lookup
is_stale desired k = starts_with k user_label_prefix && not (is_present (lookup k desired))

-- `labels[k] = "true"`, for each key of `desired`.
unfoldable pub set_desired : Dict String → Dict (Unit {0}) → Dict String
unfolding insert
set_desired labels [] = labels
set_desired labels ((k, _) ∷ desired) = insert k "true" (set_desired labels desired)

unfoldable pub default_member_labels : Workspace → Workspace
unfolding desired_labels is_stale set_desired delete_where
default_member_labels workspace =
    let desired = desired_labels [] workspace.body.spec.members in
    let kept = delete_where (is_stale desired) (entries workspace.meta.labels) in
    record workspace { meta = record workspace.meta { labels = some (set_desired kept desired) } }

-- Default
unfoldable pub default : Workspace → Result Workspace
unfolding default_member_labels
default workspace = ok (default_member_labels workspace)

-- `req, err := admission.RequestFromContext(ctx)`, and the check of the object.
abbrev pub authorize : String → Result AdmissionRequest → Workspace → Result (Unit {0})
authorize operator_sa (ok req) workspace =
    authorize_modification req.user_info workspace operator_sa
authorize operator_sa (err e) workspace = err (no_admission_request e)

-- The first argument is the field `OperatorSA`, the second the request of the context.
unfoldable pub validate_create : String → Result AdmissionRequest → Workspace → Result (Unit {0})
validate_create operator_sa req workspace = ok tt

unfoldable pub validate_update :
    String → Result AdmissionRequest → Workspace → Workspace → Result (Unit {0})
unfolding authorize_modification
validate_update operator_sa req old_workspace new_workspace =
    authorize operator_sa req old_workspace

unfoldable pub validate_delete : String → Result AdmissionRequest → Workspace → Result (Unit {0})
unfolding authorize_modification
validate_delete operator_sa req workspace = authorize operator_sa req workspace
