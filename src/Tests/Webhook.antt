-- ===== src/Tests/Webhook.antt =====
-- The theorems on the webhook, the labels and the authorization at the small cluster.
use mathlib.Core.List.{Memᴰ}
use otterscale_operator.Common.{◌≡◌, ◌↔◌, ◌⊎◌, refl, String, none, some, [], ◌∷◌, Option}
use otterscale_operator.Common.Dict.{lookup}
use otterscale_operator.Common.Exec.{ok, err, not_workspace_admin}
use otterscale_operator.Api.Meta.{entries}
use otterscale_operator.Api.Workspace.{Workspace}
use otterscale_operator.Workspace.Authorization.{UserInfo, authorize_modification}
use otterscale_operator.Workspace.Authorization.Laws.{
  InPrivilegedGroup, IsAdminOf, authorize_modification_iff,
}
use otterscale_operator.Webhook.{default_member_labels}
use otterscale_operator.Webhook.Laws.{lookup-default_member_labels}
use otterscale_operator.Webhook.Requests.{
  IsOutsider, refused, Requests, done, next, Requests-outsiders,
}
use otterscale_operator.Tests.Data.{team, user}

authorize_modification_iff_example :
    ((authorize_modification (user "alice") team "system:sa" ≡ ok tt) ↔ (
      InPrivilegedGroup (user "alice")
      ⊎ ((◌≡◌ {A = String} "alice" "system:sa") ⊎ IsAdminOf "alice" team)))
    × ((authorize_modification (user "alice") team "system:sa" ≡ ok tt)
        ⊎ (authorize_modification (user "alice") team "system:sa" ≡ err not_workspace_admin))
authorize_modification_iff_example = authorize_modification_iff (user "alice") team "system:sa"

-- The label of a former member goes.
lookup-default_member_labels_example :
    lookup "user.otterscale.io/carol" (entries (default_member_labels team).meta.labels) ≡ none
lookup-default_member_labels_example = lookup-default_member_labels team "user.otterscale.io/carol"

bob_is_refused : authorize_modification (user "bob") team "system:sa" ≡ err not_workspace_admin
unfolding authorize_modification
bob_is_refused = refl

bob_outside : IsOutsider "system:sa" team (user "bob")
bob_outside says =
    let allowed = (authorize_modification_iff (user "bob") team "system:sa").0.1 says in
    cc (bob_is_refused)

only_bob : (u : UserInfo) → Memᴰ u (user "bob" ∷ []) → IsOutsider "system:sa" team u
only_bob u (Memᴰ.head e) = rw e bob_outside
only_bob u (Memᴰ.tail i) = elim i [ ]

one_request : Requests "system:sa" (user "bob" ∷ []) (some team) (some team)
one_request = next refused done

Requests-outsiders_example : ◌≡◌ {A = Option Workspace} (some team) (some team)
Requests-outsiders_example =
    Requests-outsiders "system:sa" team (user "bob" ∷ []) only_bob one_request
