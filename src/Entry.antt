-- ===== src/Entry.antt =====
-- cmd/main.go: the start of the operator. What it calls of controller-runtime is an argument; the
-- calls are recorded in their order.
pub mod Options
pub mod Controllers
pub mod Laws
pub mod Wiring
pub mod Watches
pub mod Quiet
use Prim.Native.Nat.{ℕ}
use otterscale_operator.Common.{String, Bool, true, false, ◌==◌, List, [], ◌∷◌, ◌++◌, if◌then◌else◌}
use otterscale_operator.Common.Exec.{Result, ok, err, Exec, pure, ◌>>◌}
use otterscale_operator.Kube.{Kube}
use otterscale_operator.Controller.{absent, live}
use otterscale_operator.Workspace.Authorization.{operator_service_account_identity}
use otterscale_operator.Tenant.Detector.{IstioDetector, new_istio_detector}
use Options.{Flags, ManagerOptions, manager_options}
use Controllers.{
  Controller, WorkspaceReconciler, ModuleReconciler, setup_workspace_controller,
  setup_module_controller,
}

-- The defaulter has no fields, the validator this one.
pub record WorkspaceWebhook : Type 0 where
  pub operator_sa : String

-- ctrl.NewManager, the `Complete` of the three builders, AddHealthzCheck, AddReadyzCheck, and Start,
-- which returns when the process is asked to stop.
pub data Call : Type 0 where
  new_manager : ManagerOptions → Call
  add_controller : Controller → Call
  add_webhook : WorkspaceWebhook → Call
  add_healthz_check add_readyz_check : String → Call
  start : Call

pub record Library : Type 1 where
  pub State : Type 0
  pub call : Call → Exec State (Unit {0})

pub record Process (L : Library) : Type 0 where
  pub library : L.State
  pub calls : List Call

-- What the process finds when it starts: the environment, where an unset variable reads as the empty
-- string, the version that the linker put in, and for the detector of Istio whether there is a
-- configuration, whether the client can be made of it, and what the API server answers.
pub record Start : Type 0 where
  pub getenv : String → String
  pub version : String
  pub has_config : Bool
  pub client_made : Bool
  pub response : Result (Unit {0})

-- `cmp.Or`
abbrev pub cmp_or : String → String → String
cmp_or a b = if a == "" then b else a

unfoldable pub operator_sa : (String → String) → String
unfolding operator_service_account_identity
operator_sa getenv =
    let pod_namespace = cmp_or (getenv "POD_NAMESPACE") "otterscale-system" in
    let pod_service_account =
      cmp_or (getenv "POD_SERVICE_ACCOUNT") "otterscale-operator-controller-manager" in
    operator_service_account_identity pod_namespace pod_service_account

abbrev pub no_detector : IstioDetector
no_detector = record { has_client = false; enabled = false }

unfoldable pub workspace_controller : Kube → Start → Controller
unfolding setup_workspace_controller new_istio_detector
workspace_controller K env =
    setup_workspace_controller
      (record { version = env.version; recorder = live; istio_detector = no_detector })
      (new_istio_detector K env.has_config env.client_made env.response)

-- The literal sets neither the version nor the recorder.
unfoldable pub module_controller : Controller
unfolding setup_module_controller
module_controller = setup_module_controller (record { version = ""; recorder = absent })

-- How the process ends: by the return of `main`, or by `os.Exit`.
pub data Exit : Type 0 where
  returned : Exit
  exited : ℕ → Exit

abbrev pub exit_of : Result (Unit {0}) → Exit
exit_of (ok _) = returned
exit_of (err e) = exited 1

module _ (L : Library) where
  abbrev pub make_call : Call → Exec (Process L) (Unit {0})
  make_call c p =
      let (r, t) = L.call c p.library in (r, record { library = t; calls = p.calls ++ (c ∷ []) })

  unfoldable pub setup_webhooks : (String → String) → Exec (Process L) (Unit {0})
  unfolding operator_sa
  setup_webhooks getenv =
      if getenv "ENABLE_WEBHOOKS" == "false"
      then pure tt
      else make_call (Call.add_webhook (record { operator_sa = operator_sa getenv }))

  -- The body up to the first error, which is logged.
  unfoldable pub setup_and_start : Kube → Flags → Start → Exec (Process L) (Unit {0})
  unfolding setup_webhooks workspace_controller module_controller manager_options
  setup_and_start K flags env = do
    make_call (Call.new_manager (manager_options flags))
    make_call (Call.add_controller (workspace_controller K env))
    setup_webhooks env.getenv
    make_call (Call.add_controller module_controller)
    make_call (Call.add_healthz_check "healthz")
    make_call (Call.add_readyz_check "readyz")
    make_call Call.start

  unfoldable pub main : Kube → Flags → Start → Process L → Exit × Process L
  unfolding setup_and_start
  main K flags env p = let (r, t) = setup_and_start K flags env p in (exit_of r, t)
