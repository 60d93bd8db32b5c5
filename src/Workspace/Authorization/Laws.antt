-- ===== src/Workspace/Authorization/Laws.antt =====
-- Who may change or delete a Workspace.
use mathlib.Core.List.{Memᴰ}
use otterscale_operator.Common.{
  String, ◌≡◌, refl, ◌↔◌, ◌⊎◌, inl, inr, true, List, [], ◌∷◌, ◌==◌, ◌&&◌, arith, eq_iff, Bool-cases,
}
use otterscale_operator.Common.Exec.{ok, err, not_workspace_admin}
use otterscale_operator.Api.Workspace.{Workspace, WorkspaceMember, member_role_admin}
use otterscale_operator.Workspace.Authorization.{
  UserInfo, any_privileged, any_admin, authorize_modification,
}

-- The user is in one of the two groups that Kubernetes reserves for its administrators.
abbrev pub InPrivilegedGroup : UserInfo → Type 0
InPrivilegedGroup u =
    Memᴰ {A = String} "system:masters" u.groups
    ⊎ Memᴰ {A = String} "kubeadm:cluster-admins" u.groups

-- The workspace lists the user as a member, by this subject, with the role `admin`.
abbrev pub IsAdminOf : String → Workspace → Type 0
IsAdminOf username w =
    (m : WorkspaceMember) × Memᴰ m w.body.spec.members
    × (m.subject ≡ username)
    × (m.role ≡ member_role_admin)

any_privileged_sound :
    (gs : List String)
    → any_privileged gs ≡ true
    → Memᴰ {A = String} "system:masters" gs ⊎ Memᴰ {A = String} "kubeadm:cluster-admins" gs
unfolding any_privileged
any_privileged_sound [] h = cc
any_privileged_sound (g ∷ gs) h = elim (Bool-cases ("system:masters" == g)) [
  | inl a ↦ inl (Memᴰ.head ((eq_iff "system:masters" g).0 a))
  | inr na ↦ elim (Bool-cases ("kubeadm:cluster-admins" == g)) [
    | inl b ↦ inr (Memᴰ.head ((eq_iff "kubeadm:cluster-admins" g).0 b))
    | inr nb ↦ elim (any_privileged_sound gs (ground arith)) [
      | inl m ↦ inl (Memᴰ.tail m)
      | inr m ↦ inr (Memᴰ.tail m)
    ]
  ]
]

any_privileged-masters :
    (gs : List String) → Memᴰ {A = String} "system:masters" gs → any_privileged gs ≡ true
unfolding any_privileged
any_privileged-masters [] m = elim m [ ]
any_privileged-masters (g ∷ gs) (Memᴰ.head e) = ground (arith, eq_iff "system:masters" g)
any_privileged-masters (g ∷ gs) (Memᴰ.tail m) = ground (arith, any_privileged-masters gs m)

any_privileged-admins :
    (gs : List String) → Memᴰ {A = String} "kubeadm:cluster-admins" gs → any_privileged gs ≡ true
unfolding any_privileged
any_privileged-admins [] m = elim m [ ]
any_privileged-admins (g ∷ gs) (Memᴰ.head e) = ground (arith, eq_iff "kubeadm:cluster-admins" g)
any_privileged-admins (g ∷ gs) (Memᴰ.tail m) = ground (arith, any_privileged-admins gs m)

any_admin_sound :
    (u : String) (ms : List WorkspaceMember)
    → any_admin u ms ≡ true
    → (m : WorkspaceMember) × Memᴰ m ms × (m.subject ≡ u) × (m.role ≡ member_role_admin)
unfolding any_admin
any_admin_sound u [] h = cc
any_admin_sound u (m ∷ ms) h = elim (Bool-cases (m.subject == u && m.role == member_role_admin)) [
  | inl a ↦ (
    m,
    Memᴰ.head refl,
    ground (arith, eq_iff m.subject u),
    ground (arith, eq_iff m.role member_role_admin),
  )
  | inr na ↦ let (x, i, p, q) = any_admin_sound u ms (ground arith) in (x, Memᴰ.tail i, p, q)
]

any_admin_complete :
    (u : String) (ms : List WorkspaceMember) {m : WorkspaceMember}
    → Memᴰ m ms
    → m.subject ≡ u
    → m.role ≡ member_role_admin
    → any_admin u ms ≡ true
unfolding any_admin
any_admin_complete u [] i p q = elim i [ ]
any_admin_complete u (x ∷ ms) {m} (Memᴰ.head e) p q =
    ground (arith, eq_iff x.subject u, eq_iff x.role member_role_admin)
any_admin_complete u (x ∷ ms) (Memᴰ.tail i) p q = ground (arith, any_admin_complete u ms i p q)

pub authorize_modification_sound :
    (u : UserInfo) (w : Workspace) (sa : String)
    → authorize_modification u w sa ≡ ok tt
    → InPrivilegedGroup u ⊎ ((u.username ≡ sa) ⊎ IsAdminOf u.username w)
unfolding authorize_modification
authorize_modification_sound u w sa h = elim (Bool-cases (any_privileged u.groups)) [
  | inl group ↦ inl (any_privileged_sound u.groups group)
  | inr no_group ↦ elim (Bool-cases (u.username == sa)) [
    | inl operator ↦ inr (inl ((eq_iff u.username sa).0 operator))
    | inr no_operator ↦ inr (inr (any_admin_sound u.username w.body.spec.members (ground arith)))
  ]
]

authorize_modification_complete :
    (u : UserInfo) (w : Workspace) (sa : String)
    → InPrivilegedGroup u ⊎ ((u.username ≡ sa) ⊎ IsAdminOf u.username w)
    → authorize_modification u w sa ≡ ok tt
unfolding authorize_modification
authorize_modification_complete u w sa (inl (inl m)) = rw (any_privileged-masters u.groups m)
authorize_modification_complete u w sa (inl (inr m)) = rw (any_privileged-admins u.groups m)
authorize_modification_complete u w sa (inr (inl e)) = ground (arith, eq_iff u.username sa)
authorize_modification_complete u w sa (inr (inr (m, i, p, q))) =
    ground (arith, any_admin_complete u.username w.body.spec.members i p q)

authorize_modification-error :
    (u : UserInfo) (w : Workspace) (sa : String)
    → (authorize_modification u w sa ≡ ok tt)
      ⊎ (authorize_modification u w sa ≡ err not_workspace_admin)
unfolding authorize_modification
authorize_modification-error u w sa = ground arith

-- A request is let through exactly when the user is in a privileged group, is the operator's own
-- service account, or is an admin member of the given workspace; otherwise it is refused with the
-- one error that names the admin role.
pub authorize_modification_iff :
    (u : UserInfo) (w : Workspace) (sa : String)
    → ((authorize_modification u w sa ≡ ok tt)
        ↔ (InPrivilegedGroup u ⊎ ((u.username ≡ sa) ⊎ IsAdminOf u.username w)))
      × ((authorize_modification u w sa ≡ ok tt)
          ⊎ (authorize_modification u w sa ≡ err not_workspace_admin))
authorize_modification_iff u w sa = (
  (authorize_modification_sound u w sa, authorize_modification_complete u w sa),
  authorize_modification-error u w sa,
)
