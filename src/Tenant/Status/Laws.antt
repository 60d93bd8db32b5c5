-- ===== src/Tenant/Status/Laws.antt =====
-- The status refers to exactly the objects that a sync with the same flag keeps in the cluster.
use otterscale_operator.Common.{
  ◌≡◌, refl, ◌∙◌, Bool, true, false, not, ◌&&◌, List, [], ◌∷◌, Option, none, some, arith,
  if◌then◌else◌,
}
use otterscale_operator.Common.Dict.{Dict, lookup, insert, lookup-insert}
use otterscale_operator.Common.Exec.{ok}
use otterscale_operator.Api.Meta.{Document, ObjectKey, ResourceReference}
use otterscale_operator.Api.Workspace.{Workspace, WorkspaceMember, MemberRole}
use otterscale_operator.Kube.{Kube}
use otterscale_operator.Kube.Laws.{EqualityLaws}
use otterscale_operator.Workspace.RoleBindings.{role_binding_key}
use otterscale_operator.Workspace.Spec.{with_role, wanted_binding}
use otterscale_operator.Workspace.Constraints.{resource_quota_key, limit_range_key}
use otterscale_operator.Workspace.Network.{
  network_policy_key, peer_authentication_key, authorization_policy_key, network_policy_spec,
  peer_authentication_spec, authorization_policy_spec,
}
use otterscale_operator.Workspace.Network.Laws.{only_if}
use otterscale_operator.Controller.{Recorder, World}
use otterscale_operator.Tenant.Status.{
  roles_in_use, is_in_use, role_refs, ordered_roles, is_set, ref_if, role_binding_ref, new_status,
  update_status,
}

-- A reference to the object if a body is wanted for it.
abbrev pub ref_to : {B : Type 0} → ObjectKey → Option B → Option ResourceReference
ref_to key none = none
ref_to key (some _) = some (record { name = key.name; namespace = key.namespace })

abbrev pub some_of : {A : Type 0} → Option A → List A → List A
some_of none rest = rest
some_of (some a) rest = a ∷ rest

-- The references to the bindings of the roles that have members, in the order of the roles.
abbrev pub wanted_refs : Workspace → List MemberRole → List ResourceReference
wanted_refs w [] = []
wanted_refs w (role ∷ roles) =
    some_of
      (ref_to (role_binding_key w role) (wanted_binding role (with_role role w.body.spec.members)))
      (wanted_refs w roles)

abbrev has_some : {A : Type 0} → List A → Bool
has_some [] = false
has_some (_ ∷ _) = true

roles_in_use-has_some :
    (role : MemberRole) (ms : List WorkspaceMember) (roles : Dict Bool)
    → is_in_use (lookup role (roles_in_use roles ms))
      ≡ (if has_some (with_role role ms) then true else is_in_use (lookup role roles))
unfolding roles_in_use
roles_in_use-has_some role [] roles = refl
roles_in_use-has_some role (m ∷ ms) roles =
    roles_in_use-has_some role ms (insert m.role true roles) ∙ rw lookup-insert (ground arith)

ref-wanted :
    (w : Workspace) (role : MemberRole) (ms : List WorkspaceMember) (rest : List ResourceReference)
    → (if (if has_some ms then true else false)
        then role_binding_ref w.body.spec.namespace role ∷ rest
        else rest)
      ≡ some_of (ref_to (role_binding_key w role) (wanted_binding role ms)) rest
ref-wanted w role [] rest = refl
ref-wanted w role (m ∷ ms) rest = refl

role_refs-wanted :
    (w : Workspace) (roles : List MemberRole)
    → role_refs w.body.spec.namespace (roles_in_use [] w.body.spec.members) roles
      ≡ wanted_refs w roles
unfolding role_refs
role_refs-wanted w [] = refl
role_refs-wanted w (role ∷ roles) =
    rw (roles_in_use-has_some role w.body.spec.members [], role_refs-wanted w roles)
      (ref-wanted w role (with_role role w.body.spec.members) (wanted_refs w roles))

quota_ref-wanted :
    (key : ObjectKey) (spec : Option Document)
    → ref_if (is_set spec) key.name key.namespace ≡ ref_to key spec
quota_ref-wanted key none = refl
quota_ref-wanted key (some spec) = refl

-- Each reference of the status that `updateStatus` computes is there exactly when a sync with the
-- same flag wants the object, and names that object; the references to the role bindings stand in
-- the order admin, edit, view. The status carries the generation that was reconciled.
pub new_status-refs :
    (K : Kube) (w : Workspace) (istio : Bool)
    → let st = new_status K w istio in
      let isolated = w.body.spec.network_isolation.enabled in
      (st.observed_generation ≡ w.meta.generation)
      × (st.namespace_ref ≡ some (record { name = w.body.spec.namespace; namespace = "" }))
      × (st.role_binding_refs ≡ wanted_refs w ordered_roles)
      × (st.resource_quota_ref ≡ ref_to (resource_quota_key w) w.body.spec.resource_quota)
      × (st.limit_range_ref ≡ ref_to (limit_range_key w) w.body.spec.limit_range)
      × (st.network_policy_ref
          ≡ ref_to (network_policy_key w) (only_if (isolated && not istio) (network_policy_spec w)))
      × (st.peer_authentication_ref
          ≡ ref_to
              (peer_authentication_key w)
              (only_if (isolated && istio) peer_authentication_spec))
      × (st.authorization_policy_ref
          ≡ ref_to
              (authorization_policy_key w)
              (only_if (isolated && istio) (authorization_policy_spec w)))
unfolding new_status
new_status-refs K w istio = (
  refl,
  refl,
  role_refs-wanted w ordered_roles,
  quota_ref-wanted (resource_quota_key w) w.body.spec.resource_quota,
  quota_ref-wanted (limit_range_key w) w.body.spec.limit_range,
  ground arith,
  ground arith,
  ground arith,
)

-- A status that is up to date is not written, and no event is recorded.
pub update_status-quiet :
    (K : Kube) (L : EqualityLaws K) (recorder : Recorder) (w : Workspace) (istio : Bool)
    (s : World K)
    → w.body.status ≡ new_status K w istio
    → update_status K recorder w istio s ≡ (ok tt, s)
unfolding update_status
update_status-quiet K L recorder w istio s e =
    rw ((L.workspace_status w.body.status (new_status K w istio)).1 e)
