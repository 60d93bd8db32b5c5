-- ===== src/Tests/SimLaws/Lists.antt =====
-- `sim` meets the laws of errors, finalizers, conditions and the comparison of statuses.
use mathlib.Core.Bool.{decide_iff}
use otterscale_operator.Common.{
  String, ◌≡◌, refl, ap, ◌≢◌, true, false, ◌==◌, some, List, [], ◌∷◌, ◌++◌, inl, inr, Bool-cases,
  eq_iff, eq_refl, arith, if◌then◌else◌,
}
use otterscale_operator.Api.Meta.{Condition}
use otterscale_operator.Kube.Laws.{
  ErrorLaws, FinalizerLaws, ConditionLaws, EqualityLaws, SameCondition,
}
use otterscale_operator.Tests.Sim.{
  sim, mem, without, set_condition, keep_time, find_condition, WorkspaceStatus-discrete,
  ModuleStatus-discrete,
}

pub error_laws : ErrorLaws sim
error_laws = record { ignored = λ e h. rw h; kept = λ e h. rw h }

mem-append_self : (f : String) (fs : List String) → mem f (fs ++ (f ∷ [])) ≡ true
mem-append_self f [] = ground (arith, eq_refl f)
mem-append_self f (g ∷ fs) = ground (arith, mem-append_self f fs)

contains-add :
    (fs : List String) (f : String) → mem f (if mem f fs then fs else fs ++ (f ∷ [])) ≡ true
contains-add fs f = ground (arith, mem-append_self f fs)

mem-without_self : (fs : List String) (f : String) → mem f (without f fs) ≡ false
mem-without_self [] f = refl
mem-without_self (g ∷ fs) f = ground (arith, mem-without_self fs f)

mem-without_ne : (fs : List String) (f g : String) → f ≢ g → mem g (without f fs) ≡ mem g fs
mem-without_ne [] f g ne = refl
mem-without_ne (x ∷ fs) f g ne = ground (arith, mem-without_ne fs f g ne, eq_iff x f, eq_iff x g)

pub finalizer_laws : FinalizerLaws sim
finalizer_laws = record {
  contains-add_self = contains-add;
  contains-remove_self = mem-without_self;
  contains-remove_ne = mem-without_ne;
}

find-set_self :
    (cs : List Condition) (c : Condition)
    → (found : Condition) × (find_condition (set_condition cs c) c.type ≡ some found)
      × SameCondition found c
find-set_self [] c = (
  c,
  rw (eq_refl c.type) refl,
  record { type = refl; status = refl; reason = refl; message = refl; observed_generation = refl },
)
find-set_self (d ∷ ds) c = elim (Bool-cases (d.type == c.type)) [
  | inl same ↦ (
    keep_time d c,
    rw (same, eq_refl c.type) refl,
    record {
      type = refl;
      status = refl;
      reason = refl;
      message = refl;
      observed_generation = refl;
    },
  )
  | inr other ↦ let (found, e, says) = find-set_self ds c in (found, rw (other, other) e, says)
]

set_unchanged :
    (cs : List Condition) (c : Condition) {found : Condition}
    → find_condition cs c.type ≡ some found
    → SameCondition found c
    → set_condition cs c ≡ cs
set_unchanged [] c h says = cc
set_unchanged (d ∷ ds) c h says = elim (Bool-cases (d.type == c.type)) [
  | inl same ↦
      ground (arith, h, says.type, says.status, says.reason, says.message, says.observed_generation)
  | inr other ↦
      rw other (ap (λ (cs : List Condition). d ∷ cs) (set_unchanged ds c (rw other at h) says))
]

find-set_ne :
    (cs : List Condition) (c : Condition) (t : String)
    → c.type ≢ t
    → find_condition (set_condition cs c) t ≡ find_condition cs t
find-set_ne [] c t ne = ground (arith, eq_iff c.type t)
find-set_ne (d ∷ ds) c t ne =
    ground (arith, eq_iff c.type t, eq_iff d.type t, eq_iff d.type c.type, find-set_ne ds c t ne)

pub condition_laws : ConditionLaws sim
condition_laws = record {
  find-set_self = find-set_self;
  find_nil = λ t. refl;
  find_cons = λ c cs t. refl;
  set_unchanged = set_unchanged;
  find-set_ne = find-set_ne;
}

pub equality_laws : EqualityLaws sim
equality_laws = record {
  workspace_status = λ a b. decide_iff (WorkspaceStatus-discrete a b);
  module_status = λ a b. decide_iff (ModuleStatus-discrete a b);
}
