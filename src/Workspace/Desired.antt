-- ===== src/Workspace/Desired.antt =====
-- The two things that `internal/core/workspace` does with a namespaced object: it writes it with
-- the labels of the workspace, a whole body and the workspace as controller, or it deletes it.
use otterscale_operator.Common.{String, Bool, true, false, Option, none, some, ◌≡◌, if◌then◌else◌}
use otterscale_operator.Common.Exec.{Error, Exec, ok, filter_error}
use otterscale_operator.Api.Meta.{ObjectKey}
use otterscale_operator.Api.Workspace.{Workspace}
use otterscale_operator.Api.Owned.{Kind, Body, named}
use otterscale_operator.Kube.{Kube, IsGone, with_controller}
use otterscale_operator.Kube.Laws.{ClientLaws, OwnershipLaws}
use otterscale_operator.Kube.Sync.{
  Holds, Holds-of_eq, OnlyAt, OnlyMissing, create_or_update-Holds, delete-IsGone,
}
use otterscale_operator.Labels.{standard}
use otterscale_operator.Workspace.Helpers.{labels_for_workspace, relabel}
use otterscale_operator.Workspace.Spec.{object_labels}

-- The object is there with the labels of the workspace and the body, or, for no body, it is gone.
abbrev pub Desired :
    (K : Kube) → Workspace → String → (k : Kind) → ObjectKey → Option (Body k) → K.State → Type 0
Desired K w version k key none s = IsGone (K.lookup k key s)
Desired K w version k key (some body) s =
    Holds K k key w.meta (some (object_labels w version)) body s

abbrev pub write_object :
    (K : Kube)
    → Workspace
    → String
    → (k : Kind) → ObjectKey
    → Body k
    → Body k
    → Exec K.State (Unit {0})
write_object K w version k key zero body =
    K.create_or_update k (named key zero) (λ o. with_controller K w.meta (relabel w version body o))

abbrev pub clear_object :
    (K : Kube) → (Error → Option Error) → Kind → ObjectKey → Exec K.State (Unit {0})
clear_object K filter k key = filter_error filter (K.delete k key)

module _ (K : Kube) (C : ClientLaws K) (w : Workspace) (version : String) (k : Kind)
    (key : ObjectKey) where
  pub write_object-Desired :
      OwnershipLaws K
      → (zero body : Body k) (s : K.State) {t : K.State}
      → write_object K w version k key zero body s ≡ (ok tt, t)
      → Desired K w version k key (some body) t
  unfolding labels_for_workspace standard
  write_object-Desired O zero body s h =
      create_or_update-Holds K C O w.meta k (named key zero)
        (λ o. with_controller K w.meta (relabel w version body o)) (relabel w version body) s
        (λ x sent e. e) h

  pub clear_object-Desired :
      (filter : Error → Option Error)
      → OnlyMissing K filter
      → (s : K.State) {t : K.State} → clear_object K filter k key s ≡ (ok tt, t)
      → Desired K w version k key none t
  clear_object-Desired filter only s h = delete-IsGone K C filter only k key s h

  pub write_object-OnlyAt :
      (zero body : Body k) → OnlyAt K k key (write_object K w version k key zero body)
  write_object-OnlyAt zero body s j other =
      C.lookup-create_or_update_ne k (named key zero)
        (λ o. with_controller K w.meta (relabel w version body o)) s j other

pub clear_object-OnlyAt :
    (K : Kube)
    → ClientLaws K
    → (filter : Error → Option Error) (k : Kind) (key : ObjectKey)
    → OnlyAt K k key (clear_object K filter k key)
clear_object-OnlyAt K C filter k key s j other = C.lookup-delete_ne k key s j other

-- Delete on a condition, and write otherwise.
module _ (K : Kube) (C : ClientLaws K) (w : Workspace) (version : String) (k : Kind)
    (key : ObjectKey) (filter : Error → Option Error) (zero body : Body k) where
  abbrev pub clear_or_write : Bool → Exec K.State (Unit {0})
  clear_or_write b =
      if b then clear_object K filter k key else write_object K w version k key zero body

  pub clear_or_write-Desired :
      OwnershipLaws K
      → OnlyMissing K filter
      → (b : Bool) (s : K.State) {t : K.State} → clear_or_write b s ≡ (ok tt, t)
      → Desired K w version k key (if b then none else some body) t
  clear_or_write-Desired O only true s h = clear_object-Desired K C w version k key filter only s h
  clear_or_write-Desired O only false s h = write_object-Desired K C w version k key O zero body s h

  pub clear_or_write-OnlyAt : (b : Bool) → OnlyAt K k key (clear_or_write b)
  clear_or_write-OnlyAt true = clear_object-OnlyAt K C filter k key
  clear_or_write-OnlyAt false = write_object-OnlyAt K C w version k key zero body

-- What is desired stays while the object is not touched.
pub Desired-of_eq :
    (K : Kube) (w : Workspace) (version : String) (k : Kind) (key : ObjectKey)
    (body : Option (Body k)) {s t : K.State}
    → K.lookup k key t ≡ K.lookup k key s
    → Desired K w version k key body s
    → Desired K w version k key body t
Desired-of_eq K w version k key none e d = rw e d
Desired-of_eq K w version k key (some body) e d = Holds-of_eq K k key e d
