-- ===== src/Tenant/Detector.antt =====
-- internal/controller/tenant/istio_detector.go. What the discovery API answers is an argument.
pub mod Laws
use otterscale_operator.Common.{
  String, Bool, true, false, not, ◌==◌, ◌||◌, ◌&&◌, List, [], ◌∷◌, if◌then◌else◌,
}
use otterscale_operator.Common.Exec.{Result, ok, err}
use otterscale_operator.Kube.{Kube}

-- `has_client` says that the field `dc` is not nil.
pub record IstioDetector : Type 0 where
  pub has_client : Bool
  pub enabled : Bool

-- Whether the group is supported, and whether the answer is definitive.
unfoldable pub is_resource_supported : Kube → Result (Unit {0}) → Bool × Bool
is_resource_supported K (ok _) = (true, true)
is_resource_supported K (err e) =
    if K.is_not_found e || not (K.reason_for_error e == "") then (false, true) else (false, false)

unfoldable pub refresh : Kube → Result (Unit {0}) → IstioDetector → IstioDetector
unfolding is_resource_supported
refresh K response d =
    if not d.has_client
    then d
    else let (supported, definitive) = is_resource_supported K response in
      if definitive then record d { enabled = supported } else d

-- The configuration may be nil, and making the client may fail.
unfoldable pub new_istio_detector : Kube → Bool → Bool → Result (Unit {0}) → IstioDetector
unfolding refresh
new_istio_detector K has_config client_made response =
    refresh K response (record { has_client = has_config && client_made; enabled = false })

-- The refreshes that the CRD events cause, in their order.
unfoldable pub refresh_all : Kube → List (Result (Unit {0})) → IstioDetector → IstioDetector
unfolding refresh
refresh_all K [] d = d
refresh_all K (r ∷ rs) d = refresh_all K rs (refresh K r d)
