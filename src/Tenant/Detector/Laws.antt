-- ===== src/Tenant/Detector/Laws.antt =====
-- The flag of the detector is the last definitive answer of the discovery API.
use otterscale_operator.Common.{
  ◌≡◌, refl, ap, ◌∙◌, Bool, true, false, Option, none, some, List, [], ◌∷◌, arith, ◌==◌,
  if◌then◌else◌,
}
use otterscale_operator.Common.Dict.{or_else}
use otterscale_operator.Common.Exec.{Result, ok, err}
use otterscale_operator.Kube.{Kube}
use otterscale_operator.Tenant.Detector.{IstioDetector, refresh, refresh_all}

-- What one response tells: the group is there, it is not, or nothing.
abbrev pub answer : Kube → Result (Unit {0}) → Option Bool
answer K (ok _) = some true
answer K (err e) =
    if K.is_not_found e then some false else if K.reason_for_error e == "" then none else some false

abbrev pub last_answer : Kube → List (Result (Unit {0})) → Option Bool
last_answer K [] = none
last_answer K (r ∷ rs) = or_else (last_answer K rs) (answer K r)

abbrev pub flag_after : Option Bool → Bool → Bool
flag_after none before = before
flag_after (some b) before = b

refresh-answer :
    (K : Kube) (r : Result (Unit {0})) (d : IstioDetector)
    → d.has_client ≡ true
    → refresh K r d ≡ record d { enabled = flag_after (answer K r) d.enabled }
unfolding refresh
refresh-answer K (ok _) d h = ground arith
refresh-answer K (err e) d h = ground arith

refresh-no_client :
    (K : Kube) (r : Result (Unit {0})) (d : IstioDetector)
    → d.has_client ≡ false
    → refresh K r d ≡ d
unfolding refresh
refresh-no_client K r d h = ground arith

flag_after-or_else :
    (later earlier : Option Bool) (before : Bool)
    → flag_after later (flag_after earlier before) ≡ flag_after (or_else later earlier) before
flag_after-or_else none earlier before = refl
flag_after-or_else (some b) earlier before = refl

-- After any refreshes of a detector that has a client, the flag is the last definitive answer, and
-- what it was before if there was none. The client stays.
pub refresh_all-last_answer :
    (K : Kube) (rs : List (Result (Unit {0}))) (d : IstioDetector)
    → d.has_client ≡ true
    → refresh_all K rs d ≡ record d { enabled = flag_after (last_answer K rs) d.enabled }
unfolding refresh_all
refresh_all-last_answer K [] d h = refl
refresh_all-last_answer K (r ∷ rs) d h = rw (refresh-answer K r d h) (
    refresh_all-last_answer K rs (record d { enabled = flag_after (answer K r) d.enabled }) h
    ∙ ap (λ (b : Bool). record { has_client = d.has_client; enabled = b })
        (flag_after-or_else (last_answer K rs) (answer K r) d.enabled))

-- A detector without a client never changes.
pub refresh_all-no_client :
    (K : Kube) (rs : List (Result (Unit {0}))) (d : IstioDetector)
    → d.has_client ≡ false
    → refresh_all K rs d ≡ d
unfolding refresh_all
refresh_all-no_client K [] d h = refl
refresh_all-no_client K (r ∷ rs) d h =
    rw (refresh-no_client K r d h) (refresh_all-no_client K rs d h)
