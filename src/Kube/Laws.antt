-- ===== src/Kube/Laws.antt =====
-- What the operator relies on of the Kubernetes libraries, as they document it, while no other
-- client writes to the objects at hand.
use otterscale_operator.Common.{
  ℕ, Option, [], ◌∷◌, ◌==◌, if◌then◌else◌, String, ◌≡◌, ◌≢◌, ◌↔◌, none, some, true, false, List,
}
use otterscale_operator.Common.Exec.{Error, Result, ok, err}
use otterscale_operator.Common.Dict.{lookup}
use otterscale_operator.Api.Meta.{
  StringMap, entries, Object, ObjectMeta, ObjectKey, OwnerReference, Condition,
}
use otterscale_operator.Api.Workspace.{Workspace, WorkspaceStatus}
use otterscale_operator.Api.Module.{ModuleStatus}
use otterscale_operator.Api.Owned.{Kind, Resource, namespaces, workspaces}
use otterscale_operator.Kube.{Kube, key_of, Differ, IsGone, ControlledBy}

-- The label that the API server sets on every namespace.
abbrev pub metadata_name : String
metadata_name = "kubernetes.io/metadata.name"

-- The labels of an object of the kind as they are stored, and as they were sent.
pub record SameLabels (k : Kind) (stored sent : StringMap) : Type 0 where
  pub elsewhere : k ≢ namespaces → stored ≡ sent
  pub at_key :
      (key : String) → key ≢ metadata_name → lookup key (entries stored) ≡ lookup key (entries sent)

-- The API server keeps what it is sent, but for that label, for defaulting and for the fields that
-- it fills in.
pub record Keeps (K : Kube) (k : Kind) (sent stored : Resource k) : Type 0 where
  pub labels : SameLabels k stored.meta.labels sent.meta.labels
  pub owner_references : stored.meta.owner_references ≡ sent.meta.owner_references
  pub body : stored.body ≡ K.defaulted k sent.body

abbrev pub current : (K : Kube) (k : Kind) → Resource k → K.State → Resource k
current K k o s = elim (K.lookup k (key_of o.meta) s) [ none ↦ o | some found ↦ found ]

-- A read that went through, whether or not it found the object.
abbrev pub CanRead : (K : Kube) (k : Kind) → ObjectKey → K.State → Type 0
CanRead K k key s = (e : Error) → K.get k key s ≡ err e → K.is_not_found e ≡ true

pub record ClientLaws (K : Kube) : Type 0 where
  pub get_found :
      (k : Kind) (key : ObjectKey) (s : K.State) {o : Resource k}
      → K.get k key s ≡ ok o
      → K.lookup k key s ≡ some o
  pub get_not_found :
      (k : Kind) (key : ObjectKey) (s : K.State) {e : Error}
      → K.get k key s ≡ err e
      → K.is_not_found e ≡ true
      → K.lookup k key s ≡ none
  -- A stored object has a creation timestamp.
  pub lookup_created :
      (k : Kind) (key : ObjectKey) (s : K.State) {o : Resource k}
      → K.lookup k key s ≡ some o
      → o.meta.creation_timestamp ≢ none
  pub delete_gone :
      (k : Kind) (key : ObjectKey) (s : K.State) {t : K.State}
      → K.delete k key s ≡ (ok tt, t)
      → IsGone (K.lookup k key t)
  -- Neither is there anything of a kind that the server does not know.
  pub delete_not_found :
      (k : Kind) (key : ObjectKey) (s : K.State) {e : Error} {t : K.State}
      → K.delete k key s ≡ (err e, t)
      → K.is_not_found e ≡ true
      → K.lookup k key t ≡ none
  pub delete_no_match :
      (k : Kind) (key : ObjectKey) (s : K.State) {e : Error} {t : K.State}
      → K.delete k key s ≡ (err e, t)
      → K.is_no_match_error e ≡ true
      → K.lookup k key t ≡ none
  pub lookup-delete_ne :
      (k : Kind) (key : ObjectKey) (s : K.State) (j : Kind) (other : ObjectKey)
      → Differ k key j other
      → K.lookup j other (K.delete k key s).1 ≡ K.lookup j other s
  -- CreateOrUpdate calls the mutate function on the stored object, or on the literal if there is
  -- none, and writes the result. An error of the function ends it before any write.
  pub create_or_update_stored :
      (k : Kind) (o : Resource k) (f : Resource k → Result (Resource k)) (s : K.State) {t : K.State}
      → K.create_or_update k o f s ≡ (ok tt, t)
      → (sent : Resource k) × (f (current K k o s) ≡ ok sent)
        × (stored : Resource k) × (K.lookup k (key_of o.meta) t ≡ some stored)
        × Keeps K k sent stored
  pub create_or_update_refused :
      (k : Kind) (o : Resource k) (f : Resource k → Result (Resource k)) (s : K.State) {e : Error}
      → CanRead K k (key_of o.meta) s
      → f (current K k o s) ≡ err e
      → K.create_or_update k o f s ≡ (err e, s)
  -- Neither does it write anything when the object cannot be read.
  pub create_or_update_unread :
      (k : Kind) (o : Resource k) (f : Resource k → Result (Resource k)) (s : K.State) {e : Error}
      → K.get k (key_of o.meta) s ≡ err e
      → K.is_not_found e ≡ false
      → K.create_or_update k o f s ≡ (err e, s)
  pub lookup-create_or_update_ne :
      (k : Kind) (o : Resource k) (f : Resource k → Result (Resource k)) (s : K.State) (j : Kind)
      (other : ObjectKey)
      → Differ k (key_of o.meta) j other
      → K.lookup j other (K.create_or_update k o f s).1 ≡ K.lookup j other s
  pub lookup-patch_ne :
      (k : Kind) (base o : Resource k) (s : K.State) (j : Kind) (other : ObjectKey)
      → Differ k (key_of o.meta) j other
      → K.lookup j other (K.patch k base o s).1 ≡ K.lookup j other s
  pub lookup-patch_status_ne :
      (k : Kind) (base o : Resource k) (s : K.State) (j : Kind) (other : ObjectKey)
      → Differ k (key_of o.meta) j other
      → K.lookup j other (K.patch_status k base o s).1 ≡ K.lookup j other s

-- SetControllerReference changes the owner references alone and makes the owner the controller. It
-- refuses an object whose controller is of another name.
pub record OwnershipLaws (K : Kube) : Type 0 where
  pub only_references :
      (owner m : ObjectMeta) {m' : ObjectMeta}
      → K.set_controller_reference owner m ≡ ok m'
      → m' ≡ record m { owner_references = m'.owner_references }
  pub owned :
      (owner m : ObjectMeta) {m' : ObjectMeta}
      → K.set_controller_reference owner m ≡ ok m'
      → ControlledBy K owner m'.owner_references
  pub exclusive :
      (owner m : ObjectMeta) (r : OwnerReference)
      → K.get_controller_of m.owner_references ≡ some r
      → r.name ≢ owner.name
      → (e : Error) × (K.set_controller_reference owner m ≡ err e)

-- client.IgnoreNotFound turns a NotFound error into success, and no other.
pub record ErrorLaws (K : Kube) : Type 0 where
  pub ignored : (e : Error) → K.is_not_found e ≡ true → K.ignore_not_found e ≡ none
  pub kept : (e : Error) → K.is_not_found e ≡ false → K.ignore_not_found e ≡ some e

pub record FinalizerLaws (K : Kube) : Type 0 where
  pub contains-add_self :
      (fs : List String) (f : String) → K.contains_finalizer (K.add_finalizer fs f) f ≡ true
  pub contains-remove_self :
      (fs : List String) (f : String) → K.contains_finalizer (K.remove_finalizer fs f) f ≡ false
  pub contains-remove_ne :
      (fs : List String) (f g : String)
      → f ≢ g
      → K.contains_finalizer (K.remove_finalizer fs f) g ≡ K.contains_finalizer fs g

-- What a condition says, leaving out since when.
pub record SameCondition (a b : Condition) : Type 0 where
  pub type : a.type ≡ b.type
  pub status : a.status ≡ b.status
  pub reason : a.reason ≡ b.reason
  pub message : a.message ≡ b.message
  pub observed_generation : a.observed_generation ≡ b.observed_generation

pub record ConditionLaws (K : Kube) : Type 0 where
  pub find-set_self :
      (cs : List Condition) (c : Condition)
      → (found : Condition) × (K.find_status_condition (K.set_status_condition cs c) c.type
          ≡ some found)
        × SameCondition found c
  pub find-set_ne :
      (cs : List Condition) (c : Condition) (t : String)
      → c.type ≢ t
      → K.find_status_condition (K.set_status_condition cs c) t ≡ K.find_status_condition cs t
  -- The first condition of the type is found.
  pub find_nil : (t : String) → K.find_status_condition [] t ≡ none
  pub find_cons :
      (c : Condition) (cs : List Condition) (t : String)
      → K.find_status_condition (c ∷ cs) t
        ≡ (if c.type == t then some c else K.find_status_condition cs t)
  -- A condition that says the same already is left as it is.
  pub set_unchanged :
      (cs : List Condition) (c : Condition) {found : Condition}
      → K.find_status_condition cs c.type ≡ some found
      → SameCondition found c
      → K.set_status_condition cs c ≡ cs

pub record EqualityLaws (K : Kube) : Type 0 where
  pub workspace_status : (a b : WorkspaceStatus) → (K.equal_workspace_status a b ≡ true) ↔ (a ≡ b)
  pub module_status : (a b : ModuleStatus) → (K.equal_module_status a b ≡ true) ↔ (a ≡ b)

-- What the API server answers to a patch is the object of that name.
pub record AnswerLaws (K : Kube) : Type 0 where
  pub patch_name :
      (k : Kind) (base o : Resource k) (s : K.State) {answer : Resource k} {t : K.State}
      → K.patch k base o s ≡ (ok answer, t)
      → answer.meta.name ≡ o.meta.name

abbrev pub generation_of : {B : Type 0} → Option (Object B) → Option ℕ
generation_of none = none
generation_of (some o) = some o.meta.generation

-- The generation counts the changes of a spec: to write the status does not change it.
pub record GenerationLaws (K : Kube) : Type 0 where
  pub patch_status_generation :
      (base o : Workspace) (s : K.State) (key : ObjectKey)
      → o.meta ≡ base.meta
      → generation_of (K.lookup workspaces key (K.patch_status workspaces base o s).1)
        ≡ generation_of (K.lookup workspaces key s)
