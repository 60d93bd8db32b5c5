-- ===== src/Workspace/RoleBindings/Laws.antt =====
-- Each known role has a binding with exactly its members, in their order, or none.
use text.Mathlib.TextLemmas.{append_cancel_left}
use mathlib.Core.Bool.{false≢true}
use mathlib.Core.List.{append-nil, append_assoc}
use otterscale_operator.Common.{
  String, ◌<>◌, ◌==◌, ◌≡◌, refl, ap, ◌∙◌, ◌≢◌, List, [], ◌∷◌, ◌++◌, eq_iff, inl, inr, Bool-cases,
}
use otterscale_operator.Common.Dict.{Dict, lookup, insert, lookup-insert}
use otterscale_operator.Common.Exec.{ok, bind-eq-ok}
use otterscale_operator.Api.Meta.{ObjectKey}
use otterscale_operator.Api.Workspace.{
  Workspace, WorkspaceMember, MemberRole, member_role_admin, member_role_edit, member_role_view,
}
use otterscale_operator.Api.Owned.{Kind, role_bindings}
use otterscale_operator.Kube.{Kube, Differ}
use otterscale_operator.Kube.Laws.{ClientLaws, OwnershipLaws, ErrorLaws}
use otterscale_operator.Kube.Sync.{
  OnlyAt, OnlyAt-Untouched, Untouched, Untouched-then, Untouched-eq, ignore_not_found-OnlyMissing,
}
use otterscale_operator.Workspace.Helpers.{role_binding_name}
use otterscale_operator.Workspace.Spec.{place_of, with_role, wanted_binding}
use otterscale_operator.Workspace.Desired.{
  Desired, Desired-of_eq, write_object-Desired, clear_object-Desired, write_object-OnlyAt,
  clear_object-OnlyAt,
}
use otterscale_operator.Workspace.RoleBindings.{
  members_of, group_members, role_binding_key, role_binding_body, empty_role_binding,
  reconcile_role_binding, known_roles, reconcile_roles, reconcile_role_bindings,
}

insert_member :
    (role : MemberRole) (m : WorkspaceMember) (ms : List WorkspaceMember)
    (groups : Dict (List WorkspaceMember))
    → members_of
          (lookup role (insert m.role (members_of (lookup m.role groups) ++ (m ∷ [])) groups))
        ++ with_role role ms
      ≡ members_of (lookup role groups) ++ with_role role (m ∷ ms)
insert_member role m ms groups = elim (Bool-cases (m.role == role)) [
  | inl same ↦
      rw (lookup-insert, same, (eq_iff m.role role).0 same)
        (append_assoc (members_of (lookup role groups)) (record m { role = role } ∷ [])
          (with_role role ms))
  | inr other ↦ rw (lookup-insert, other)
]

group_members-with_role :
    (role : MemberRole) (ms : List WorkspaceMember) (groups : Dict (List WorkspaceMember))
    → members_of (lookup role (group_members groups ms))
      ≡ members_of (lookup role groups) ++ with_role role ms
unfolding group_members
group_members-with_role role [] groups = rw append-nil
group_members-with_role role (m ∷ ms) groups =
    group_members-with_role role ms _ ∙ insert_member role m ms groups

-- The object is none of the bindings of these roles.
abbrev pub NoBinding : Workspace → Kind → ObjectKey → List MemberRole → Type 0
NoBinding w j other [] = Unit {0}
NoBinding w j other (role ∷ roles) =
    Differ role_bindings (role_binding_key w role) j other × NoBinding w j other roles

pub NoBinding-of_kind :
    (w : Workspace) (j : Kind) (other : ObjectKey) (roles : List MemberRole)
    → role_bindings ≢ j
    → NoBinding w j other roles
NoBinding-of_kind w j other [] ne = tt
NoBinding-of_kind w j other (role ∷ roles) ne = (inl ne, NoBinding-of_kind w j other roles ne)

-- What the binding of one role should be, given the members of the workspace.
abbrev pub RoleDesired : (K : Kube) → Workspace → String → MemberRole → K.State → Type 0
RoleDesired K w version role s =
    Desired K w version role_bindings (place_of w (("workspace-role-binding" <> "-") <> role))
      (wanted_binding role (with_role role w.body.spec.members)) s

edit_not_admin : member_role_edit ≢ member_role_admin
edit_not_admin e = false≢true ((eq_iff member_role_edit member_role_admin).1 e)

view_not_admin : member_role_view ≢ member_role_admin
view_not_admin e = false≢true ((eq_iff member_role_view member_role_admin).1 e)

view_not_edit : member_role_view ≢ member_role_edit
view_not_edit e = false≢true ((eq_iff member_role_view member_role_edit).1 e)

module _ (K : Kube) (C : ClientLaws K) (w : Workspace) (version : String) where
  role_binding-Desired :
      OwnershipLaws K
      → ErrorLaws K
      → (role : MemberRole) (ms : List WorkspaceMember) (s : K.State) {t : K.State}
      → reconcile_role_binding K w version role ms s ≡ (ok tt, t)
      → Desired K w version role_bindings (role_binding_key w role) (wanted_binding role ms) t
  unfolding reconcile_role_binding
  role_binding-Desired O E role [] s h =
      clear_object-Desired K C w version role_bindings (role_binding_key w role) K.ignore_not_found
        (ignore_not_found-OnlyMissing K C E) s h
  role_binding-Desired O E role (m ∷ ms) s h =
      write_object-Desired K C w version role_bindings (role_binding_key w role) O
        empty_role_binding (role_binding_body role (m ∷ ms)) s h

  pub role_binding-OnlyAt :
      (role : MemberRole) (ms : List WorkspaceMember)
      → OnlyAt K role_bindings
          (role_binding_key w role)
          (reconcile_role_binding K w version role ms)
  unfolding reconcile_role_binding
  role_binding-OnlyAt role [] =
      clear_object-OnlyAt K C K.ignore_not_found role_bindings (role_binding_key w role)
  role_binding-OnlyAt role (m ∷ ms) =
      write_object-OnlyAt K C w version role_bindings (role_binding_key w role) empty_role_binding
        (role_binding_body role (m ∷ ms))

  roles-Untouched :
      (groups : Dict (List WorkspaceMember)) (roles : List MemberRole) (j : Kind)
      (other : ObjectKey)
      → NoBinding w j other roles
      → Untouched K j other (reconcile_roles K w version groups roles)
  unfolding reconcile_roles
  roles-Untouched groups [] j other none_of = λ s. refl
  roles-Untouched groups (role ∷ roles) j other none_of =
      Untouched-then K j other
        (reconcile_role_binding K w version role (members_of (lookup role groups)))
        (reconcile_roles K w version groups roles)
        (OnlyAt-Untouched K j other role_bindings (role_binding_key w role)
          (reconcile_role_binding K w version role (members_of (lookup role groups)))
          (role_binding-OnlyAt role (members_of (lookup role groups))) none_of.0)
        (roles-Untouched groups roles j other none_of.1)

  pub reconcile_role_bindings-Untouched :
      (j : Kind) (other : ObjectKey)
      → NoBinding w j other known_roles
      → Untouched K j other (reconcile_role_bindings K w version)
  unfolding reconcile_role_bindings
  reconcile_role_bindings-Untouched =
      roles-Untouched (group_members [] w.body.spec.members) known_roles

  -- Roles are distinct, so their bindings are.
  abbrev pub Distinct : List MemberRole → Type 0
  Distinct [] = Unit {0}
  Distinct (role ∷ roles) =
      NoBinding w role_bindings (role_binding_key w role) roles × Distinct roles

  abbrev RolesDesired : Dict (List WorkspaceMember) → List MemberRole → K.State → Type 0
  RolesDesired groups [] s = Unit {0}
  RolesDesired groups (role ∷ roles) s =
      Desired K w version role_bindings (role_binding_key w role)
        (wanted_binding role (members_of (lookup role groups))) s
      × RolesDesired groups roles s

  roles-Desired :
      OwnershipLaws K
      → ErrorLaws K
      → (groups : Dict (List WorkspaceMember)) (roles : List MemberRole) → Distinct roles
      → (s : K.State) {t : K.State} → reconcile_roles K w version groups roles s ≡ (ok tt, t)
      → RolesDesired groups roles t
  unfolding reconcile_roles
  roles-Desired O E groups [] d s h = tt
  roles-Desired O E groups (role ∷ roles) d s h =
      let ms = members_of (lookup role groups) in
      let rest = reconcile_roles K w version groups roles in
      let (_, s', first, later) =
        bind-eq-ok (reconcile_role_binding K w version role ms) (λ _. rest) s h in
      let kept =
        Untouched-eq K role_bindings (role_binding_key w role) rest
          (roles-Untouched groups roles role_bindings (role_binding_key w role) d.0) later in
      (
        Desired-of_eq K w version role_bindings (role_binding_key w role) (wanted_binding role ms)
            kept (role_binding-Desired O E role ms s first),
        roles-Desired O E groups roles d.1 s' later,
      )

  role_binding_key-ne :
      (role other : MemberRole) → role ≢ other → role_binding_key w role ≢ role_binding_key w other
  role_binding_key-ne role other ne e = ne (
      append_cancel_left (role_binding_name <> "-") role other
        (ap (λ (key : ObjectKey). key.name) e))

  pub known_roles-Distinct : Distinct known_roles
  known_roles-Distinct = (
    (
      inr (role_binding_key-ne member_role_edit member_role_admin edit_not_admin),
      (inr (role_binding_key-ne member_role_view member_role_admin view_not_admin), tt),
    ),
    ((inr (role_binding_key-ne member_role_view member_role_edit view_not_edit), tt), (tt, tt)),
  )

  pub reconcile_role_bindings-Desired :
      OwnershipLaws K
      → ErrorLaws K
      → (s : K.State) {t : K.State} → reconcile_role_bindings K w version s ≡ (ok tt, t)
      → RoleDesired K w version member_role_admin t
        × RoleDesired K w version member_role_edit t
        × RoleDesired K w version member_role_view t
  unfolding reconcile_role_bindings
  reconcile_role_bindings-Desired O E s h =
      let groups = group_members [] w.body.spec.members in
      let (a, (b, (c, _))) = roles-Desired O E groups known_roles known_roles-Distinct s h in
      (
        rw (group_members-with_role member_role_admin w.body.spec.members []) at a,
        rw (group_members-with_role member_role_edit w.body.spec.members []) at b,
        rw (group_members-with_role member_role_view w.body.spec.members []) at c,
      )
