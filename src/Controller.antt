-- ===== src/Controller.antt =====
-- What the two controllers share: the world that a reconcile acts on, the event recorder, the text
-- of an error, and the order of conditions.
pub mod Order
pub mod Sorting
pub mod Frame
use Prim.Native.String.{compare}
use text.Mathlib.Text.{is_le}
use otterscale_operator.Common.{ℕ, String, ◌<>◌, Bool, List, [], ◌∷◌, ◌++◌, if◌then◌else◌}
use otterscale_operator.Common.Exec.{
  Error, namespace_conflict, template_not_found, template_invalid, not_workspace_admin,
  no_admission_request, nil_dereference, foreign, Result, ok, err, Exec, pure, raise,
}
use otterscale_operator.Api.Meta.{Condition}
use otterscale_operator.Kube.{Kube}
use otterscale_operator.Workspace.Namespace.{namespace_conflict_text}

-- The arguments of a call of `Recorder.Eventf`, but for the objects.
pub record Event : Type 0 where
  pub event_type : String
  pub reason : String
  pub action : String
  pub note : String
  pub args : List String

-- A field of interface type `events.EventRecorder`, which may be nil.
pub data Recorder : Type 0 where
  absent live : Recorder

-- The cluster, and the events recorded so far.
pub record World (K : Kube) : Type 0 where
  pub cluster : K.State
  pub events : List Event

module _ (K : Kube) where
  abbrev pub on_cluster : {A : Type 0} → Exec K.State A → Exec (World K) A
  on_cluster m s = let (r, t) = m s.cluster in (r, record s { cluster = t })

  -- A call through a nil interface panics.
  abbrev pub eventf : Recorder → Event → Exec (World K) (Unit {0})
  eventf absent e = raise nil_dereference
  eventf live e = λ s. (ok tt, record s { events = s.events ++ (e ∷ []) })

  -- `err.Error()`
  unfoldable pub error_text : Error → String
  unfolding namespace_conflict_text
  error_text (namespace_conflict name) = namespace_conflict_text name
  error_text (template_not_found name) = "moduletemplate " <> (K.quote name <> " not found")
  error_text (template_invalid name message) =
      "moduletemplate " <> (K.quote name <> (" is invalid: " <> message))
  error_text not_workspace_admin =
      "only users with the 'admin' role defined in this workspace can modify or delete it"
  error_text (no_admission_request e) =
      "unable to retrieve admission request from context: " <> error_text e
  error_text nil_dereference = "runtime error: invalid memory address or nil pointer dereference"
  error_text (foreign text) = text

-- `if err := m(); err != nil { return handler(err) }; next`
abbrev pub branch :
    {S A B : Type 0} → (Error → Exec S B) → (A → Exec S B) → Result A × S → Result B × S
branch handler next (ok a, s) = next a s
branch handler next (err e, s) = handler e s

abbrev pub attempt : {S A B : Type 0} → Exec S A → (Error → Exec S B) → (A → Exec S B) → Exec S B
attempt m handler next s = branch handler next (m s)

-- The error of a patch is logged, and not returned.
abbrev pub log_error : {S A : Type 0} → Exec S A → Exec S (Unit {0})
log_error m s = (ok tt, (m s).1)

-- cmp.Compare(a.Type, b.Type) ≤ 0
abbrev pub type_le : Condition → Condition → Bool
type_le a b = is_le (compare a.type b.type)

unfoldable pub insert_condition : Condition → List Condition → List Condition
insert_condition c [] = c ∷ []
insert_condition c (d ∷ ds) = if type_le c d then c ∷ d ∷ ds else d ∷ insert_condition c ds

-- slices.SortFunc by type. The types of a list of conditions are distinct, so the order is unique.
unfoldable pub sort_conditions : List Condition → List Condition
unfolding insert_condition
sort_conditions [] = []
sort_conditions (c ∷ cs) = insert_condition c (sort_conditions cs)
