-- ===== src/Kube/Progress.antt =====
-- A cluster in which what is to be deleted or patched is deleted or patched.
use otterscale_operator.Common.{◌≡◌, Bool, true, false, some, ◌⊎◌}
use otterscale_operator.Common.Exec.{Error, ok, err, Exec}
use otterscale_operator.Api.Meta.{ObjectKey}
use otterscale_operator.Api.Owned.{Kind, Resource, IsIstio}
use otterscale_operator.Kube.{Kube, key_of}

-- The API server can be reached, and knows the kinds of Istio or not: a delete succeeds or finds
-- nothing to delete, and a patch of an object that is there succeeds.
pub record Healthy (K : Kube) (istio : Bool) : Type 0 where
  pub delete_ends :
      (k : Kind) (key : ObjectKey) (s : K.State)
      → ((t : K.State) × (K.delete k key s ≡ (ok tt, t)))
        ⊎ ((e : Error) × (t : K.State) × (K.delete k key s ≡ (err e, t))
            × ((K.is_not_found e ≡ true)
                ⊎ (IsIstio k × (istio ≡ false) × (K.is_no_match_error e ≡ true))))
  pub patch_ok :
      (k : Kind) (base o : Resource k) (s : K.State) {found : Resource k}
      → K.lookup k (key_of o.meta) s ≡ some found
      → (r : Resource k) × (t : K.State) × (K.patch k base o s ≡ (ok r, t))

abbrev pub Succeeds : (K : Kube) → Exec K.State (Unit {0}) → K.State → Type 0
Succeeds K m s = (t : K.State) × (m s ≡ (ok tt, t))
