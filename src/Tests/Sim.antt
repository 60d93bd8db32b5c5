-- ===== src/Tests/Sim.antt =====
-- A concrete instance of what the operator uses of the Kubernetes libraries. It serves the tests
-- and shows that the laws can be met; nothing else rests on it.
use mathlib.Core.Bool.{decide}
use native.Mathlib.Decide.{ℕ_discrete}
use otterscale_operator.Common.{◌≡◌}
use otterscale_operator.Common.{
  String, Bool, true, false, ◌||◌, ◌==◌, Option, none, some, List, [], ◌∷◌, ◌++◌, inl, inr,
  Bool-cases, eq_iff, arith, if◌then◌else◌,
}
use otterscale_operator.Common.Exec.{Error, foreign, Result, ok, err}
use otterscale_operator.Api.Meta.{ObjectMeta, OwnerReference, Condition, ObjectKey}
use otterscale_operator.Api.Workspace.{WorkspaceStatus}
use otterscale_operator.Api.Module.{ModuleStatus}
use otterscale_operator.Api.Owned.{Kind, Resource}
use otterscale_operator.Kube.{Kube, key_of}
use otterscale_operator.Tests.Store.{Store, put, read}

different : (s t : String) → (s == t) ≡ false → ¬ (s ≡ t)
different s t other e = ground (arith, eq_iff s t)

unfoldable pub String-discrete : Discrete String
unfolding different
String-discrete s t = elim (Bool-cases (s == t)) [
  | inl same ↦ yes ((eq_iff s t).0 same)
  | inr other ↦ no (different s t other)
]

unfoldable pub WorkspaceStatus-discrete : Discrete WorkspaceStatus
WorkspaceStatus-discrete = hlevel (String-discrete, ℕ_discrete)

unfoldable pub ModuleStatus-discrete : Discrete ModuleStatus
ModuleStatus-discrete = hlevel (String-discrete, ℕ_discrete)

abbrev pub is_text : String → Error → Bool
is_text t (foreign text) = text == t
is_text t _ = false

abbrev pub not_found : Error
not_found = foreign "not found"

abbrev pub mem : String → List String → Bool
mem f [] = false
mem f (g ∷ fs) = g == f || mem f fs

abbrev pub without : String → List String → List String
without f [] = []
without f (g ∷ fs) = let rest = without f fs in if g == f then rest else g ∷ rest

abbrev pub drop_owner : String → List OwnerReference → List OwnerReference
drop_owner name [] = []
drop_owner name (r ∷ rs) =
    let rest = drop_owner name rs in if r.name == name then rest else r ∷ rest

abbrev pub has_controller : List OwnerReference → Bool
has_controller [] = false
has_controller (r ∷ rs) = r.controller || has_controller rs

abbrev pub controller_of : List OwnerReference → Option OwnerReference
controller_of [] = none
controller_of (r ∷ rs) = let rest = controller_of rs in if r.controller then some r else rest

abbrev pub own : ObjectMeta → ObjectMeta → Result ObjectMeta
own owner m =
    let others = drop_owner owner.name m.owner_references in
    if has_controller others
    then err (foreign "already owned")
    else ok (record m {
      owner_references =
          record { kind = ""; name = owner.name; uid = owner.uid; controller = true } ∷ others;
    })

abbrev pub find_condition : List Condition → String → Option Condition
find_condition [] t = none
find_condition (c ∷ cs) t = if c.type == t then some c else find_condition cs t

abbrev pub keep_time : Condition → Condition → Condition
keep_time d c = record c { last_transition_time = d.last_transition_time }

abbrev pub set_condition : List Condition → Condition → List Condition
set_condition [] c = c ∷ []
set_condition (d ∷ ds) c = if d.type == c.type then keep_time d c ∷ ds else d ∷ set_condition ds c

abbrev pub current_or : (k : Kind) → Resource k → Store → Resource k
current_or k o s = elim (read k (key_of o.meta) s) [ none ↦ o | some found ↦ found ]

abbrev pub sent : (k : Kind) → ObjectKey → Store → Result (Resource k) → Result (Unit {0}) × Store
sent k key s (ok o) = (ok tt, put k key (some o) s)
sent k key s (err e) = (err e, s)

abbrev pub deleted :
    (k : Kind) → ObjectKey → Store → Option (Resource k) → Result (Unit {0}) × Store
deleted k key s none = (err not_found, s)
deleted k key s (some o) = (ok tt, put k key none s)

abbrev pub found_or : {A : Type 0} → Option A → Result A
found_or none = err not_found
found_or (some a) = ok a

abbrev pub sim : Kube
sim = record {
  State = Store;
  lookup = read;
  defaulted = λ k b. b;
  get = λ k key s. found_or (read k key s);
  list = λ k s. ok [];
  delete = λ k key s. deleted k key s (s k key);
  patch = λ k base o s. (ok o, put k (key_of o.meta) (some o) s);
  patch_status = λ k base o s. (ok o, put k (key_of o.meta) (some o) s);
  create_or_update = λ k o f s. sent k (key_of o.meta) s (f (current_or k o s));
  set_controller_reference = own;
  get_controller_of = controller_of;
  contains_finalizer = λ fs f. mem f fs;
  add_finalizer = λ fs f. if mem f fs then fs else fs ++ (f ∷ []);
  remove_finalizer = λ fs f. without f fs;
  set_status_condition = set_condition;
  find_status_condition = find_condition;
  equal_workspace_status = λ a b. decide (WorkspaceStatus-discrete a b);
  equal_module_status = λ a b. decide (ModuleStatus-discrete a b);
  is_not_found = is_text "not found";
  is_no_match_error = is_text "no match";
  reason_for_error = λ e. if is_text "not found" e then "NotFound" else "";
  ignore_not_found = λ e. if is_text "not found" e then none else some e;
  quote = λ s. s;
}
