-- ===== src/Entry/Laws.antt =====
-- The calls by which the operator starts.
use mathlib.Core.List.{append-nil, append_assoc}
use mathlib.Core.Path.{fun_ext}
use otterscale_operator.Common.{
  String, ◌≡◌, refl, sym, ◌∙◌, ap, subst, Bool-cases, inl, inr, ◌==◌, List, [], ◌∷◌, ◌++◌,
  if◌then◌else◌,
}
use otterscale_operator.Common.Exec.{Result, ok, err, Exec, pure, ◌>>◌, continue}
use otterscale_operator.Kube.{Kube}
use otterscale_operator.Entry.Options.{Flags, manager_options}
use otterscale_operator.Entry.{
  Call, Library, Process, Start, operator_sa, workspace_controller, module_controller, Exit,
  returned, exited, make_call, setup_webhooks, setup_and_start, exit_of, main,
}

abbrev webhook_calls : (String → String) → List Call
webhook_calls getenv =
    if getenv "ENABLE_WEBHOOKS" == "false"
    then []
    else Call.add_webhook (record { operator_sa = operator_sa getenv }) ∷ []

abbrev last_calls : List Call
last_calls =
    Call.add_controller module_controller
    ∷ Call.add_healthz_check "healthz"
    ∷ Call.add_readyz_check "readyz"
    ∷ Call.start
    ∷ []

-- The calls of a start at which nothing fails.
abbrev pub planned : Kube → Flags → Start → List Call
planned K flags env =
    Call.new_manager (manager_options flags)
      ∷ Call.add_controller (workspace_controller K env)
      ∷ webhook_calls env.getenv
    ++ last_calls

-- The calls that were made, of those that were planned: all of them, or those up to one that
-- failed.
pub data Made (cs : List Call) : Exit → List Call → Type 0 where
  all_made : Made cs returned cs
  stopped :
      (before after : List Call) (failed : Call)
      → cs ≡ before ++ failed ∷ after
      → Made cs (exited 1) (before ++ failed ∷ [])

Made-later :
    (c : Call) {cs made : List Call} {exit : Exit}
    → Made cs exit made
    → Made (c ∷ cs) exit (c ∷ made)
Made-later c Made.all_made = Made.all_made
Made-later c (Made.stopped before after failed e) =
    Made.stopped (c ∷ before) after failed (ap (λ (cs : List Call). c ∷ cs) e)

module _ (L : Library) where
  run_calls : List Call → Exec (Process L) (Unit {0})
  run_calls [] = pure tt
  run_calls (c ∷ cs) = make_call L c >> run_calls cs

  continue-pure : (p : Result (Unit {0}) × Process L) → continue p (λ _. pure tt) ≡ p
  continue-pure (ok _, s) = refl
  continue-pure (err e, s) = refl

  start_last : run_calls (Call.start ∷ []) ≡ make_call L Call.start
  unfolding run_calls
  start_last = fun_ext (λ p. continue-pure (make_call L Call.start p))

  setup_and_start-run_calls :
      (K : Kube) (flags : Flags) (env : Start)
      → setup_and_start L K flags env ≡ run_calls (planned K flags env)
  unfolding setup_and_start setup_webhooks run_calls
  setup_and_start-run_calls K flags env =
      let Act : Type 0 = Exec (Process L) (Unit {0}) in
      let first : (Act → Act) = λ m.
        make_call L (Call.new_manager (manager_options flags))
        >> (make_call L (Call.add_controller (workspace_controller K env)) >> m) in
      let last : (Act → Act) = λ m.
        make_call L (Call.add_controller module_controller)
        >> (make_call L (Call.add_healthz_check "healthz")
            >> (make_call L (Call.add_readyz_check "readyz") >> m)) in
      elim (Bool-cases (env.getenv "ENABLE_WEBHOOKS" == "false")) [
        | inl off ↦ rw off (ap (λ (m : Act). first (last m)) (sym start_last))
        | inr on ↦
            let hook = Call.add_webhook (record { operator_sa = operator_sa env.getenv }) in
            rw on (ap (λ (m : Act). first (make_call L hook >> last m)) (sym start_last))
      ]

  -- What was made of the calls, when they follow on others.
  abbrev Ran : List Call → List Call → Result (Unit {0}) × Process L → Type 0
  Ran cs before (r, t) = (made : List Call) × Made cs (exit_of r) made × (t.calls ≡ before ++ made)

  after_call :
      (c : Call) (cs before : List Call) (reply : Result (Unit {0})) (l : L.State)
      → ((p : Process L) → Ran cs p.calls (run_calls cs p))
      → Ran
          (c ∷ cs)
          before
          (continue (reply, record { library = l; calls = before ++ c ∷ [] }) (λ _. run_calls cs))
  after_call c cs before (ok _) l rest =
      let (made, m, e) = rest (record { library = l; calls = before ++ c ∷ [] }) in
      (c ∷ made, Made-later c m, e ∙ append_assoc before (c ∷ []) made)
  after_call c cs before (err e) l rest = (c ∷ [], Made.stopped [] cs c refl, refl)

  run_calls-Ran : (cs : List Call) (p : Process L) → Ran cs p.calls (run_calls cs p)
  unfolding run_calls
  run_calls-Ran [] p = ([], Made.all_made, sym (append-nil p.calls))
  run_calls-Ran (c ∷ cs) p =
      after_call c cs p.calls (L.call c p.library).0 (L.call c p.library).1 (run_calls-Ran cs)

  pub main-Made :
      (K : Kube) (flags : Flags) (env : Start) (l : L.State)
      → let (exit, t) = main L K flags env (record { library = l; calls = [] }) in
        Made (planned K flags env) exit t.calls
  unfolding main
  main-Made K flags env l =
      let p : Process L = record { library = l; calls = [] } in
      let (made, m, e) = run_calls-Ran (planned K flags env) p in
      subst
        (λ (a : Exec (Process L) (Unit {0})).
          Made (planned K flags env) (exit_of (a p).0) (a p).1.calls)
        (sym (setup_and_start-run_calls K flags env)) (rw e m)
