-- ===== src/Addons/Cleanup/Progress.antt =====
-- The cleanup of a Module that is deleted, in a healthy cluster.
use otterscale_operator.Common.{◌≡◌, Bool}
use otterscale_operator.Api.Module.{Module}
use otterscale_operator.Api.Owned.{modules}
use otterscale_operator.Kube.{Kube}
use otterscale_operator.Kube.Laws.{ClientLaws, ErrorLaws}
use otterscale_operator.Kube.Progress.{Healthy}
use otterscale_operator.Addons.Cleanup.{without_finalizer}

module _ (K : Kube) (istio : Bool) (H : Healthy K istio) (C : ClientLaws K) (E : ErrorLaws K)
    (m : Module) where
  -- The last thing that was done was to send the Module without the finalizer.
  abbrev pub IsReleased : K.State → Type 0
  IsReleased t = (u : K.State) × ((K.patch modules m (without_finalizer K m) u).1 ≡ t)
