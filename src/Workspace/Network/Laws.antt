-- ===== src/Workspace/Network/Laws.antt =====
-- Network isolation is enforced by one mechanism at a time.
use otterscale_operator.Common.{
  String, ◌≡◌, Bool, true, false, not, refl, ◌&&◌, ◌||◌, Option, none, some, inl, inr, Bool-cases,
  if◌then◌else◌,
}
use otterscale_operator.Common.Exec.{ok, bind-eq-ok, ◌>>◌}
use otterscale_operator.Api.Workspace.{Workspace}
use otterscale_operator.Api.Owned.{
  Kind, network_policies, peer_authentications, authorization_policies,
}
use otterscale_operator.Api.Meta.{ObjectKey}
use otterscale_operator.Kube.{Kube, Differ}
use otterscale_operator.Kube.Laws.{ClientLaws, OwnershipLaws, ErrorLaws}
use otterscale_operator.Kube.Sync.{
  OnlyAt, OnlyAt-Untouched, Untouched, Untouched-then, Untouched-eq, OnlyMissing,
  ignore_not_found-OnlyMissing,
}
use otterscale_operator.Workspace.Helpers.{ignore_no_match_not_found}
use otterscale_operator.Workspace.Spec.{place_of, isolation_policy, isolation_tls, isolation_access}
use otterscale_operator.Workspace.Desired.{
  Desired, Desired-of_eq, clear_or_write-Desired, clear_or_write-OnlyAt,
}
use otterscale_operator.Workspace.Network.{
  network_policy_key, peer_authentication_key, authorization_policy_key, network_policy_spec,
  no_network_policy, no_peer_authentication, no_authorization_policy, peer_authentication_spec,
  authorization_policy_spec, reconcile_network_policy, reconcile_peer_authentication,
  reconcile_authorization_policy, reconcile_network_isolation,
}

-- A body that is wanted only on a condition.
abbrev pub only_if {ℓ} : {A : Type ℓ} → Bool → A → Option A
only_if b a = if b then some a else none

-- What each of the three objects should be.
abbrev pub NetworkPolicyDesired : (K : Kube) → Workspace → String → Bool → K.State → Type 0
NetworkPolicyDesired K w version istio =
    Desired K w version network_policies (place_of w "workspace-network-policy")
      (only_if (w.body.spec.network_isolation.enabled && not istio) (isolation_policy w))

abbrev pub PeerAuthenticationDesired : (K : Kube) → Workspace → String → Bool → K.State → Type 0
PeerAuthenticationDesired K w version istio =
    Desired K w version peer_authentications (place_of w "workspace-peer-authentication")
      (only_if (w.body.spec.network_isolation.enabled && istio) isolation_tls)

abbrev pub AuthorizationPolicyDesired : (K : Kube) → Workspace → String → Bool → K.State → Type 0
AuthorizationPolicyDesired K w version istio =
    Desired K w version authorization_policies (place_of w "workspace-authorization-policy")
      (only_if (w.body.spec.network_isolation.enabled && istio) (isolation_access w))

module _ (K : Kube) (C : ClientLaws K) (E : ErrorLaws K) where
  pub ignore_no_match-OnlyMissing : OnlyMissing K (ignore_no_match_not_found K)
  unfolding ignore_no_match_not_found
  ignore_no_match-OnlyMissing e h = elim (Bool-cases (K.is_no_match_error e)) [
    | inl no_match ↦ inr no_match
    | inr other ↦ ignore_not_found-OnlyMissing K C E e (rw other at h)
  ]

unless-either :
    {A : Type 0} (enabled istio : Bool) (a : A)
    → (if not enabled || istio then none else some a) ≡ only_if (enabled && not istio) a
unless-either true true a = refl
unless-either true false a = refl
unless-either false istio a = refl

unless-both :
    {A : Type 0} (enabled istio : Bool) (a : A)
    → (if not enabled || not istio then none else some a) ≡ only_if (enabled && istio) a
unless-both true true a = refl
unless-both true false a = refl
unless-both false istio a = refl

module _ (K : Kube) (C : ClientLaws K) (w : Workspace) (version : String) (istio : Bool) where
  module _ (O : OwnershipLaws K) (E : ErrorLaws K) (s : K.State) {t : K.State} where
    pub reconcile_network_policy-Desired :
        reconcile_network_policy K w version istio s ≡ (ok tt, t)
        → NetworkPolicyDesired K w version istio t
    unfolding reconcile_network_policy
    reconcile_network_policy-Desired h =
        rw (← unless-either w.body.spec.network_isolation.enabled istio (network_policy_spec w)) (
          clear_or_write-Desired K C w version network_policies (network_policy_key w)
            K.ignore_not_found no_network_policy (network_policy_spec w) O
            (ignore_not_found-OnlyMissing K C E)
            (not w.body.spec.network_isolation.enabled || istio) s h)

    pub reconcile_peer_authentication-Desired :
        reconcile_peer_authentication K w version istio s ≡ (ok tt, t)
        → PeerAuthenticationDesired K w version istio t
    unfolding reconcile_peer_authentication
    reconcile_peer_authentication-Desired h =
        rw (← unless-both w.body.spec.network_isolation.enabled istio peer_authentication_spec) (
          clear_or_write-Desired K C w version peer_authentications (peer_authentication_key w)
            (ignore_no_match_not_found K) no_peer_authentication peer_authentication_spec O
            (ignore_no_match-OnlyMissing K C E)
            (not w.body.spec.network_isolation.enabled || not istio) s h)

    pub reconcile_authorization_policy-Desired :
        reconcile_authorization_policy K w version istio s ≡ (ok tt, t)
        → AuthorizationPolicyDesired K w version istio t
    unfolding reconcile_authorization_policy
    reconcile_authorization_policy-Desired h =
        rw (← unless-both w.body.spec.network_isolation.enabled istio (authorization_policy_spec w))
          (clear_or_write-Desired K C w version authorization_policies (authorization_policy_key w)
            (ignore_no_match_not_found K) no_authorization_policy (authorization_policy_spec w) O
            (ignore_no_match-OnlyMissing K C E)
            (not w.body.spec.network_isolation.enabled || not istio) s h)

  pub reconcile_network_policy-OnlyAt :
      OnlyAt K network_policies (network_policy_key w) (reconcile_network_policy K w version istio)
  unfolding reconcile_network_policy
  reconcile_network_policy-OnlyAt =
      clear_or_write-OnlyAt K C w version network_policies (network_policy_key w) K.ignore_not_found
        no_network_policy (network_policy_spec w)
        (not w.body.spec.network_isolation.enabled || istio)

  pub reconcile_peer_authentication-OnlyAt :
      OnlyAt K peer_authentications
        (peer_authentication_key w)
        (reconcile_peer_authentication K w version istio)
  unfolding reconcile_peer_authentication
  reconcile_peer_authentication-OnlyAt =
      clear_or_write-OnlyAt K C w version peer_authentications (peer_authentication_key w)
        (ignore_no_match_not_found K) no_peer_authentication peer_authentication_spec
        (not w.body.spec.network_isolation.enabled || not istio)

  pub reconcile_authorization_policy-OnlyAt :
      OnlyAt K authorization_policies
        (authorization_policy_key w)
        (reconcile_authorization_policy K w version istio)
  unfolding reconcile_authorization_policy
  reconcile_authorization_policy-OnlyAt =
      clear_or_write-OnlyAt K C w version authorization_policies (authorization_policy_key w)
        (ignore_no_match_not_found K) no_authorization_policy (authorization_policy_spec w)
        (not w.body.spec.network_isolation.enabled || not istio)

  module _ (j : Kind) (other : ObjectKey) where
    peers-Untouched :
        Differ peer_authentications (peer_authentication_key w) j other
        → Differ authorization_policies (authorization_policy_key w) j other
        → Untouched K j other (
            reconcile_peer_authentication K w version istio
            >> reconcile_authorization_policy K w version istio)
    peers-Untouched pa ap =
        Untouched-then K j other (reconcile_peer_authentication K w version istio)
          (reconcile_authorization_policy K w version istio)
          (OnlyAt-Untouched K j other peer_authentications (peer_authentication_key w)
            (reconcile_peer_authentication K w version istio) reconcile_peer_authentication-OnlyAt
            pa)
          (OnlyAt-Untouched K j other authorization_policies (authorization_policy_key w)
            (reconcile_authorization_policy K w version istio) reconcile_authorization_policy-OnlyAt
            ap)

    pub reconcile_network_isolation-Untouched :
        Differ network_policies (network_policy_key w) j other
        → Differ peer_authentications (peer_authentication_key w) j other
        → Differ authorization_policies (authorization_policy_key w) j other
        → Untouched K j other (reconcile_network_isolation K w version istio)
    unfolding reconcile_network_isolation
    reconcile_network_isolation-Untouched np pa ap =
        Untouched-then K j other (reconcile_network_policy K w version istio)
          (reconcile_peer_authentication K w version istio
            >> reconcile_authorization_policy K w version istio)
          (OnlyAt-Untouched K j other network_policies (network_policy_key w)
            (reconcile_network_policy K w version istio) reconcile_network_policy-OnlyAt np)
          (peers-Untouched pa ap)

  -- After a success the three objects are as desired: with isolation and Istio the two Istio
  -- policies alone, with isolation and no Istio the network policy alone, and none without.
  pub reconcile_network_isolation-Desired :
      OwnershipLaws K
      → ErrorLaws K
      → (s : K.State) {t : K.State} → reconcile_network_isolation K w version istio s ≡ (ok tt, t)
      → NetworkPolicyDesired K w version istio t
        × PeerAuthenticationDesired K w version istio t
        × AuthorizationPolicyDesired K w version istio t
  unfolding reconcile_network_isolation
  reconcile_network_isolation-Desired O E s h =
      let pa = reconcile_peer_authentication K w version istio in
      let ap = reconcile_authorization_policy K w version istio in
      let (_, s', np_ok, rest_ok) =
        bind-eq-ok (reconcile_network_policy K w version istio) (λ _. pa >> ap) s h in
      let (_, s'', pa_ok, ap_ok) = bind-eq-ok pa (λ _. ap) s' rest_ok in
      (
        Desired-of_eq K w version network_policies (network_policy_key w) _
            (Untouched-eq K network_policies (network_policy_key w) (pa >> ap)
              (peers-Untouched network_policies (network_policy_key w) (inl (λ e. cc))
                (inl (λ e. cc)))
              rest_ok)
            (reconcile_network_policy-Desired O E s np_ok),
        Desired-of_eq K w version peer_authentications (peer_authentication_key w) _
            (Untouched-eq K peer_authentications (peer_authentication_key w) ap
              (OnlyAt-Untouched K peer_authentications (peer_authentication_key w)
                authorization_policies (authorization_policy_key w) ap
                reconcile_authorization_policy-OnlyAt (inl (λ e. cc)))
              ap_ok)
            (reconcile_peer_authentication-Desired O E s' pa_ok),
        reconcile_authorization_policy-Desired O E s'' ap_ok,
      )
