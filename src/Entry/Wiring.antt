-- ===== src/Entry/Wiring.antt =====
-- What the operator is once it has started: whom the webhook lets through, and what the controllers
-- were given.
use mathlib.Core.List.{Memᴰ}
use otterscale_operator.Common.{
  String, ◌<>◌, ◌≡◌, ◌≢◌, refl, sym, ◌∙◌, ap, subst, Bool-cases, ◌⊎◌, inl, inr, ◌==◌, eq_iff, List,
  [], ◌∷◌, ◌++◌,
}
use otterscale_operator.Common.Exec.{Error, Result, ok, err, nil_dereference}
use otterscale_operator.Api.Workspace.{Workspace}
use otterscale_operator.Kube.{Kube}
use otterscale_operator.Controller.{absent, World}
use otterscale_operator.Api.Meta.{ObjectKey}
use otterscale_operator.Api.Module.{Module}
use otterscale_operator.Addons.{fetch_module_template}
use otterscale_operator.Addons.Reconcile.{reconcile}
use otterscale_operator.Addons.Reconcile.Laws.{IsSteady, marked, reconcile_unfetched-absent}
use otterscale_operator.Workspace.Authorization.{
  UserInfo, operator_service_account_identity, authorize_modification, is_privileged,
}
use otterscale_operator.Webhook.{AdmissionRequest, validate_update, validate_delete}
use otterscale_operator.Entry.Options.{Flags}
use otterscale_operator.Entry.Controllers.{
  Controller, Reconciler, ModuleReconciler, setup_workspace_controller, setup_module_controller,
}
use otterscale_operator.Entry.{
  Call, Library, Start, WorkspaceWebhook, cmp_or, operator_sa, workspace_controller,
  module_controller, Exit, main,
}
use otterscale_operator.Entry.Laws.{planned, Made, main-Made}

mem_shorter :
    (c failed : Call) (xs ys : List Call) → Memᴰ c (xs ++ failed ∷ []) → Memᴰ c (xs ++ failed ∷ ys)
mem_shorter c failed [] ys (Memᴰ.head e) = Memᴰ.head e
mem_shorter c failed [] ys (Memᴰ.tail m) = elim m [ ]
mem_shorter c failed (x ∷ xs) ys (Memᴰ.head e) = Memᴰ.head e
mem_shorter c failed (x ∷ xs) ys (Memᴰ.tail m) = Memᴰ.tail (mem_shorter c failed xs ys m)

mem_made :
    (c : Call) {cs made : List Call} {exit : Exit} → Made cs exit made → Memᴰ c made → Memᴰ c cs
mem_made c Made.all_made m = m
mem_made c (Made.stopped before after failed e) m = rw e (mem_shorter c failed before after m)

-- What holds of each call that the process makes.
module _ (K : Kube) (env : Start) where
  abbrev Fits : Call → Type 0
  Fits (Call.add_webhook h) =
      (h.operator_sa ≡ operator_sa env.getenv) × (env.getenv "ENABLE_WEBHOOKS" ≢ "false")
  Fits (Call.add_controller c) = (c ≡ workspace_controller K env) ⊎ (c ≡ module_controller)
  Fits _ = Unit {0}

  abbrev AllFit : List Call → Type 0
  AllFit [] = Unit {0}
  AllFit (c ∷ cs) = Fits c × AllFit cs

  Fits-of_mem : (c : Call) (cs : List Call) → Memᴰ c cs → AllFit cs → Fits c
  Fits-of_mem c [] m all = elim m [ ]
  Fits-of_mem c (x ∷ xs) (Memᴰ.head e) all = subst Fits (sym e) all.0
  Fits-of_mem c (x ∷ xs) (Memᴰ.tail m) all = Fits-of_mem c xs m all.1

  planned-AllFit : (flags : Flags) → AllFit (planned K flags env)
  planned-AllFit flags = elim (Bool-cases (env.getenv "ENABLE_WEBHOOKS" == "false")) [
    | inl off ↦ rw off (tt, (inl refl, (inr refl, (tt, (tt, (tt, tt))))))
    | inr on ↦
        let enabled : (env.getenv "ENABLE_WEBHOOKS" ≢ "false") =
          λ e. cc ((eq_iff (env.getenv "ENABLE_WEBHOOKS") "false").1 e) in
        rw on (tt, (inl refl, ((refl, enabled), (inr refl, (tt, (tt, (tt, tt)))))))
  ]

-- The name that an environment variable gives, or its default when it is empty or not set.
abbrev pub IsName : (String → String) → String → String → String → Type 0
IsName getenv key default name =
    ((getenv key ≡ name) × (name ≢ "")) ⊎ ((getenv key ≡ "") × (name ≡ default))

cmp_or-IsName :
    (getenv : String → String) (key default name : String)
    → IsName getenv key default name
    → cmp_or (getenv key) default ≡ name
cmp_or-IsName getenv key default name (inl (e, set)) = elim (Bool-cases (name == "")) [
  | inl empty ↦ absurd (set ((eq_iff name "").0 empty))
  | inr given ↦ rw (e, given) refl
]
cmp_or-IsName getenv key default name (inr (e, d)) = rw e (sym d)

operator_sa_of_names :
    (getenv : String → String) (namespace account : String)
    → IsName getenv "POD_NAMESPACE" "otterscale-system" namespace
    → IsName getenv "POD_SERVICE_ACCOUNT" "otterscale-operator-controller-manager" account
    → operator_sa getenv ≡ "system:serviceaccount:" <> (namespace <> (":" <> account))
unfolding operator_sa operator_service_account_identity
operator_sa_of_names getenv namespace account n a = rw (
  cmp_or-IsName getenv "POD_NAMESPACE" "otterscale-system" namespace n,
  cmp_or-IsName getenv "POD_SERVICE_ACCOUNT" "otterscale-operator-controller-manager" account a,
)

-- The account whose name the authorization was given is let through.
authorize_modification_self :
    (u : UserInfo) (w : Workspace) (sa : String)
    → u.username ≡ sa
    → authorize_modification u w sa ≡ ok tt
unfolding authorize_modification
authorize_modification_self u w sa e = elim (Bool-cases (is_privileged u)) [
  | inl privileged ↦ rw privileged refl
  | inr other ↦ rw (other, (eq_iff u.username sa).1 e) refl
]

module _ (L : Library) (K : Kube) (flags : Flags) (env : Start) (l : L.State) where
  -- The calls of a run of the process.
  abbrev pub CalledBy : Call → Type 0
  CalledBy c = Memᴰ c (main L K flags env (record { library = l; calls = [] })).1.calls

  called-planned : (c : Call) → CalledBy c → Memᴰ c (planned K flags env)
  called-planned c = mem_made c (main-Made L K flags env l)

  called-Fits : (c : Call) → CalledBy c → Fits K env c
  called-Fits c m =
      Fits-of_mem K env c (planned K flags env) (called-planned c m) (planned-AllFit K env flags)

  -- In every run of the process, a webhook that it registers lets the operator's own service account,
  -- with the namespace and the name of the environment or the defaults, update and delete every
  -- Workspace; and it registers none when ENABLE_WEBHOOKS is "false".
  pub main-admits_operator :
      (hook : WorkspaceWebhook) (namespace account : String) (u : UserInfo)
      → CalledBy (Call.add_webhook hook)
      → IsName env.getenv "POD_NAMESPACE" "otterscale-system" namespace
      → IsName env.getenv "POD_SERVICE_ACCOUNT" "otterscale-operator-controller-manager" account
      → u.username ≡ "system:serviceaccount:" <> (namespace <> (":" <> account))
      → let req : Result AdmissionRequest = ok (record { user_info = u }) in
        ((old new : Workspace) → validate_update hook.operator_sa req old new ≡ ok tt)
        × ((w : Workspace) → validate_delete hook.operator_sa req w ≡ ok tt)
        × (env.getenv "ENABLE_WEBHOOKS" ≢ "false")
  unfolding validate_update validate_delete
  main-admits_operator hook namespace account u called n a named =
      let (sa, enabled) = called-Fits (Call.add_webhook hook) called in
      let self : (u.username ≡ hook.operator_sa) =
        named ∙ sym (sa ∙ operator_sa_of_names env.getenv namespace account n a) in
      (
        λ old new. authorize_modification_self u old hook.operator_sa self,
        λ w. authorize_modification_self u w hook.operator_sa self,
        enabled,
      )

  recorder_of_controller :
      (c : Controller) (r : ModuleReconciler)
      → Fits K env (Call.add_controller c)
      → c.reconciler ≡ Reconciler.addon r
      → r.recorder ≡ absent
  unfolding workspace_controller module_controller setup_workspace_controller
      setup_module_controller
  recorder_of_controller c r (inl e) h = cc (ap (λ (c : Controller). c.reconciler) e)
  recorder_of_controller c r (inr e) h = cc (ap (λ (c : Controller). c.reconciler) e)

  -- In every run of the process, the controller of Modules that it registers has no recorder: the
  -- reconcile of a live Module that carries the finalizer and whose template cannot be fetched,
  -- also when that is a permanent error that is not to be retried, ends in a panic, after the
  -- status was patched and without an event.
  pub main-unrecorded :
      (c : Controller) (r : ModuleReconciler) (request : ObjectKey) (m : Module) (s : World K)
      {e : Error}
      → CalledBy (Call.add_controller c)
      → c.reconciler ≡ Reconciler.addon r
      → IsSteady K r.version request m s
      → fetch_module_template K m.body.spec.template_ref s.cluster ≡ err e
      → reconcile K r.recorder r.version request s ≡ (err nil_dereference, marked K m e s)
  main-unrecorded c r request m s {e} called is steady fails =
      rw (recorder_of_controller c r (called-Fits (Call.add_controller c) called) is)
        (reconcile_unfetched-absent K r.version request m s steady fails)
