-- ===== src/Tenant/Status/Settled.antt =====
-- A status that was written settles: the next one is the same.
use otterscale_operator.Common.{ap, sym, ◌≡◌, List, Bool, none}
use otterscale_operator.Common.Exec.{ok}
use otterscale_operator.Api.Meta.{Condition, condition_true}
use otterscale_operator.Api.Workspace.{Workspace}
use otterscale_operator.Kube.{Kube}
use otterscale_operator.Kube.Laws.{ConditionLaws, EqualityLaws}
use otterscale_operator.Controller.{Recorder, World}
use otterscale_operator.Controller.Sorting.{sort-set_again}
use otterscale_operator.Workspace.Helpers.{condition_type_ready}
use otterscale_operator.Tenant.Status.{new_status, with_status, update_status}
use otterscale_operator.Tenant.Status.Laws.{update_status-quiet}

module _ (K : Kube) (L : ConditionLaws K) (w : Workspace) (c : Bool) where
  ready : Condition
  ready = record {
    type = condition_type_ready;
    status = condition_true;
    reason = "Reconciled";
    message = "Workspace resources are successfully reconciled";
    observed_generation = w.meta.generation;
    last_transition_time = none;
  }

  -- The status that is computed from the Workspace with the status computed before.
  pub new_status-again : new_status K (with_status w (new_status K w c)) c ≡ new_status K w c
  unfolding new_status ready
  new_status-again =
      ap (λ (cs : List Condition). record (new_status K w c) { conditions = cs })
        (sort-set_again K L w.body.status.conditions ready)

  -- Once the status that a reconcile computes is stored, and as long as the Workspace and the flag
  -- stay, a further update of the status writes nothing and records no event.
  pub update_status-settled :
      EqualityLaws K
      → (recorder : Recorder) (s : World K)
      → update_status K recorder (with_status w (new_status K w c)) c s ≡ (ok tt, s)
  update_status-settled E recorder s =
      update_status-quiet K E recorder (with_status w (new_status K w c)) c s (sym new_status-again)
