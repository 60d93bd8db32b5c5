-- ===== src/Labels/Laws.antt =====
-- What `standard` puts on an object.
use otterscale_operator.Common.{
  String, ◌≡◌, none, some, Option, arith, eq_iff, ◌==◌, inl, inr, Bool-cases, if◌then◌else◌,
}
use otterscale_operator.Common.Dict.{lookup, lookup-insert}
use otterscale_operator.Labels.{
  name_label, managed_by, part_of, component_label, instance_label, version_label, standard,
}

-- The value of each label of `standard`, as a table.
abbrev pub standard_value : String → String → String → String → String → Option String
standard_value name inst component version k =
    if instance_label == k
    then some inst
    else if component_label == k
    then some component
    else if part_of == k
    then some "otterscale"
    else if managed_by == k
    then some "otterscale-operator"
    else if version_label == k
    then some version
    else if name_label == k
    then (if name == "" then none else some name)
    else none

-- Every key of `standard` has the value of the table, and no other key is there.
pub lookup-standard :
    (name inst component version k : String)
    → lookup k (standard name inst component version) ≡ standard_value name inst component version k
unfolding standard lookup
lookup-standard name inst component version k = elim (Bool-cases (name == "")) [
  | inl e ↦ rw (e, standard) (ground arith)
  | inr e ↦
      rw (e, standard, lookup-insert name_label k name)
        (ground (
          arith,
          eq_iff name_label k,
          eq_iff instance_label k,
          eq_iff component_label k,
          eq_iff part_of k,
          eq_iff managed_by k,
          eq_iff version_label k,
          eq_iff name_label instance_label,
          eq_iff name_label component_label,
          eq_iff name_label part_of,
          eq_iff name_label managed_by,
          eq_iff name_label version_label,
        ))
]
