-- ===== src/Api/Meta.antt =====
-- Kubernetes metadata as far as the operator reads or writes it.
use otterscale_operator.Common.{ℕ, String, List, Option, Bool, none, some, []}
use otterscale_operator.Common.Dict.{Dict}

-- A JSON document: the value of a field whose type belongs to a foreign API.
mutual
  pub data Document : Type 0 where
    null : Document
    boolean : Bool → Document
    number : ℕ → Document
    text : String → Document
    array : Documents → Document
    object : Members → Document

  pub data Documents : Type 0 where
    end : Documents
    item : Document → Documents → Documents

  pub data Members : Type 0 where
    end_members : Members
    member : String → Document → Members → Members

-- A Go `map[string]string`, which may be nil.
abbrev pub StringMap : Type 0
StringMap = Option (Dict String)

-- Reading a nil map is reading an empty one.
abbrev pub entries : StringMap → Dict String
entries none = []
entries (some m) = m

pub record OwnerReference : Type 0 where
  pub kind : String
  pub name : String
  pub uid : String
  pub controller : Bool

-- `none` is the zero time and the zero timestamp.
pub record ObjectMeta : Type 0 where
  pub name : String
  pub namespace : String
  pub uid : String
  pub generation : ℕ
  pub labels : StringMap
  pub owner_references : List OwnerReference
  pub finalizers : List String
  pub creation_timestamp : Option ℕ
  pub deletion_timestamp : Option ℕ

abbrev pub empty_meta : ObjectMeta
empty_meta = record {
  name = "";
  namespace = "";
  uid = "";
  generation = 0;
  labels = none;
  owner_references = [];
  finalizers = [];
  creation_timestamp = none;
  deletion_timestamp = none;
}

-- An object of a kind whose own fields are a `B`.
pub record Object (B : Type 0) : Type 0 where
  pub meta : ObjectMeta
  pub body : B

pub record ObjectKey : Type 0 where
  pub namespace : String
  pub name : String

pub data ConditionStatus : Type 0 where
  condition_true condition_false condition_unknown : ConditionStatus

pub record Condition : Type 0 where
  pub type : String
  pub status : ConditionStatus
  pub reason : String
  pub message : String
  pub observed_generation : ℕ
  pub last_transition_time : Option ℕ

pub record ResourceReference : Type 0 where
  pub name : String
  pub namespace : String
