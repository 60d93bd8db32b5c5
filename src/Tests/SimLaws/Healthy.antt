-- ===== src/Tests/SimLaws/Healthy.antt =====
-- `sim` is a healthy cluster.
use otterscale_operator.Common.{Bool, ◌⊎◌, ◌≡◌, refl, true, false, Option, none, some, inl, inr}
use otterscale_operator.Common.Exec.{Error, ok, err}
use otterscale_operator.Api.Meta.{ObjectKey}
use otterscale_operator.Api.Owned.{Kind, Resource, IsIstio}
use otterscale_operator.Kube.{key_of}
use otterscale_operator.Kube.Progress.{Healthy}
use otterscale_operator.Tests.Store.{Store, put}
use otterscale_operator.Tests.Sim.{sim, is_text, not_found, deleted}

deleted_ends :
    (k : Kind) (key : ObjectKey) (s : Store) (r : Option (Resource k)) (istio : Bool)
    → ((t : Store) × (deleted k key s r ≡ (ok tt, t)))
      ⊎ ((e : Error) × (t : Store) × (deleted k key s r ≡ (err e, t))
          × ((is_text "not found" e ≡ true)
              ⊎ (IsIstio k × (istio ≡ false) × (is_text "no match" e ≡ true))))
deleted_ends k key s none istio = inr (not_found, s, refl, inl refl)
deleted_ends k key s (some o) istio = inl (put k key none s, refl)

pub sim_Healthy : (istio : Bool) → Healthy sim istio
sim_Healthy istio = record {
  delete_ends = λ k key s. deleted_ends k key s (s k key) istio;
  patch_ok = λ k base o s found. (o, put k (key_of o.meta) (some o) s, refl);
}
