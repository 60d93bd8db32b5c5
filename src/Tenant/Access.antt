-- ===== src/Tenant/Access.antt =====
-- Who has which role in the namespace of a Workspace that is synced.
use mathlib.Core.List.{Memᴰ}
use mathlib.Core.List.Memᴰ
use otterscale_operator.Common.{
  String, ◌<>◌, ◌≡◌, refl, sym, ◌∙◌, ap, List, [], ◌∷◌, map, Option, none, some, Bool, inl, inr,
  ◌==◌, eq_iff, Bool-cases,
}
use otterscale_operator.Common.Dict.{Dict}
use otterscale_operator.Api.Workspace.{Workspace, WorkspaceMember, MemberRole}
use otterscale_operator.Api.Owned.{namespaces, role_bindings, Resource, RoleBindingBody, Subject}
use otterscale_operator.Kube.{Kube}
use otterscale_operator.Kube.Laws.{ClientLaws, OwnershipLaws, ErrorLaws, current}
use otterscale_operator.Workspace.RoleBindings.Laws.{RoleDesired}
use otterscale_operator.Workspace.Spec.{place_of, binding_body, with_role, wanted_binding, user_of}
use otterscale_operator.Workspace.Desired.{Desired}
use otterscale_operator.Tenant.Sync.{Synced, reconcile_resources-Synced}
use otterscale_operator.Tenant.Reconcile.{reconcile_resources}
use otterscale_operator.Workspace.Namespace.{new_namespace}
use otterscale_operator.Api.Meta.{ObjectKey, entries}
use otterscale_operator.Common.Exec.{ok}

-- The user is a member of the Workspace with this role.
abbrev pub HasRole : Workspace → MemberRole → String → Type 0
HasRole w role user =
    (m : WorkspaceMember) × Memᴰ m w.body.spec.members × (m.role ≡ role) × (m.subject ≡ user)

with_role_complete :
    (role : MemberRole) (ms : List WorkspaceMember) (m : WorkspaceMember)
    → Memᴰ m ms
    → m.role ≡ role
    → Memᴰ m (with_role role ms)
with_role_complete role [] m i e = elim i [ ]
with_role_complete role (x ∷ ms) m (Memᴰ.head same) e =
    rw ((eq_iff x.role role).1 (ap (λ (y : WorkspaceMember). y.role) (sym same) ∙ e))
      (Memᴰ.head same)
with_role_complete role (x ∷ ms) m (Memᴰ.tail i) e =
    let rest = with_role_complete role ms m i e in
    elim (Bool-cases (x.role == role)) [
      | inl same ↦ rw same (Memᴰ.tail rest)
      | inr other ↦ rw other rest
    ]

with_role_sound :
    (role : MemberRole) (ms : List WorkspaceMember) (m : WorkspaceMember)
    → Memᴰ m (with_role role ms)
    → Memᴰ m ms × (m.role ≡ role)
with_role_sound role [] m i = elim i [ ]
with_role_sound role (x ∷ ms) m i = elim (Bool-cases (x.role == role)) [
  | inl same ↦ elim (Memᴰ.cases_cons (rw same at i)) [
    | inl here ↦
        (Memᴰ.head here, ap (λ (y : WorkspaceMember). y.role) here ∙ (eq_iff x.role role).0 same)
    | inr later ↦ let (j, e) = with_role_sound role ms m later in (Memᴰ.tail j, e)
  ]
  | inr other ↦ let (j, e) = with_role_sound role ms m (rw other at i) in (Memᴰ.tail j, e)
]

-- Where the operator keeps its binding of a role.
abbrev pub binding_place : Workspace → MemberRole → ObjectKey
binding_place w role = place_of w (("workspace-role-binding" <> "-") <> role)

-- The binding gives the user the ClusterRole of this name.
abbrev pub Binds : Resource role_bindings → MemberRole → String → Type 0
Binds b role user =
    Memᴰ (record { kind = "User"; api_group = "rbac.authorization.k8s.io"; name = user })
      b.body.subjects
    × (b.body.role_ref
        ≡ record { kind = "ClusterRole"; api_group = "rbac.authorization.k8s.io"; name = role })

subjects_of : Option (Resource role_bindings) → List Subject
subjects_of none = []
subjects_of (some b) = b.body.subjects

module _ (K : Kube) (C : ClientLaws K) (w : Workspace) (version : String)
    (kept : (body : RoleBindingBody) → K.defaulted role_bindings body ≡ body) where
  subject_of_member :
      (user : String) (ms : List WorkspaceMember) (m : WorkspaceMember)
      → Memᴰ m ms
      → m.subject ≡ user
      → Memᴰ
          (record { kind = "User"; api_group = "rbac.authorization.k8s.io"; name = user })
          (map user_of ms)
  subject_of_member user ms m i e = rw (← e) (Memᴰ.map user_of i)

  granted :
      (role : MemberRole) (user : String) (ms : List WorkspaceMember) (s : K.State)
      → Desired K w version role_bindings (binding_place w role) (wanted_binding role ms) s
      → (m : WorkspaceMember) → Memᴰ m ms
      → m.subject ≡ user
      → (b : Resource role_bindings) × (K.lookup role_bindings (binding_place w role) s ≡ some b)
        × Binds b role user
  granted role user [] s d m i e = elim i [ ]
  granted role user (x ∷ ms) s d m i e =
      let body = d.body_eq ∙ kept (binding_body role (x ∷ ms)) in
      (d.stored, d.found, rw body (subject_of_member user (x ∷ ms) m i e, refl))

  member_of_granted :
      (role : MemberRole) (user : String) (ms : List WorkspaceMember) (s : K.State)
      (b : Resource role_bindings)
      → Desired K w version role_bindings (binding_place w role) (wanted_binding role ms) s
      → K.lookup role_bindings (binding_place w role) s ≡ some b
      → b.meta.deletion_timestamp ≡ none
      → Memᴰ
          (record { kind = "User"; api_group = "rbac.authorization.k8s.io"; name = user })
          b.body.subjects
      → (m : WorkspaceMember) × Memᴰ m ms × (m.subject ≡ user)
  unfolding subjects_of
  member_of_granted role user [] s b gone found lives i = absurd ((rw found at gone) lives)
  member_of_granted role user (x ∷ ms) s b d found lives i =
      let body = d.body_eq ∙ kept (binding_body role (x ∷ ms)) in
      let subjects : (b.body.subjects ≡ map user_of (x ∷ ms)) =
        ap subjects_of (sym found ∙ d.found) ∙ ap (λ (r : RoleBindingBody). r.subjects) body in
      let (m, j, e) = Memᴰ.of_map user_of (x ∷ ms) (rw subjects at i) in
      (m, j, ap (λ (u : Subject). u.name) e)

  desired_of_role :
      (istio : Bool) (labels : Dict String) (role : MemberRole) (s : K.State)
      → Memᴰ role ("admin" ∷ "edit" ∷ "view" ∷ [])
      → Synced K C w version istio labels s
      → RoleDesired K w version role s
  desired_of_role istio labels role s (Memᴰ.head e) d = rw e d.admin
  desired_of_role istio labels role s (Memᴰ.tail (Memᴰ.head e)) d = rw e d.edit
  desired_of_role istio labels role s (Memᴰ.tail (Memᴰ.tail (Memᴰ.head e))) d = rw e d.view
  desired_of_role istio labels role s (Memᴰ.tail (Memᴰ.tail (Memᴰ.tail i))) d = elim i [ ]

  -- The operator's binding of the role binds the user, and nobody else does it bind while it lives.
  abbrev pub BindsExactly : MemberRole → String → K.State → Type 0
  BindsExactly role user s =
      (HasRole w role user
        → (b : Resource role_bindings) × (K.lookup role_bindings (binding_place w role) s ≡ some b)
          × Binds b role user)
      × ((b : Resource role_bindings)
          → K.lookup role_bindings (binding_place w role) s ≡ some b
          → b.meta.deletion_timestamp ≡ none
          → Binds b role user
          → HasRole w role user)

  Synced-Binds :
      (istio : Bool) (labels : Dict String) (role : MemberRole) (user : String) (s : K.State)
      → Memᴰ role ("admin" ∷ "edit" ∷ "view" ∷ [])
      → Synced K C w version istio labels s
      → BindsExactly role user s
  Synced-Binds istio labels role user s known d =
      let ms = with_role role w.body.spec.members in
      let desired = desired_of_role istio labels role s known d in
      (
        λ (m, i, has, e).
            granted role user ms s desired m (with_role_complete role w.body.spec.members m i has)
              e,
        λ b found lives (i, _).
            let (m, j, e) = member_of_granted role user ms s b desired found lives i in
            let (k, has) = with_role_sound role w.body.spec.members m j in (m, k, has, e),
      )

  -- After a sync of a Workspace that succeeds, with an API server that stores role bindings as they
  -- are sent, and for each of the three roles: a member with the role is bound to the ClusterRole of
  -- that name by the RoleBinding that the operator keeps for the role in the namespace; and whoever
  -- that RoleBinding binds, unless it is being deleted, is a member with the role.
  pub reconcile_resources-Binds :
      OwnershipLaws K
      → ErrorLaws K
      → (istio : Bool) (role : MemberRole) (user : String) (s : K.State) {t : K.State}
      → Memᴰ role ("admin" ∷ "edit" ∷ "view" ∷ [])
      → reconcile_resources K w version istio s ≡ (ok tt, t)
      → BindsExactly role user t
  reconcile_resources-Binds O E istio role user s {t} known h =
      Synced-Binds istio (entries (current K namespaces (new_namespace w) s).meta.labels) role user
        t known (reconcile_resources-Synced K C w version istio O E s h)
