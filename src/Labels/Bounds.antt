-- ===== src/Labels/Bounds.antt =====
-- How long the values of the standard labels are. Kubernetes takes a label value of at most 63 bytes.
use Prim.Native.Nat.{◌≤◌}
use Prim.Native.String.{len}
use otterscale_operator.Common.{
  String, ◌≡◌, refl, sym, ◌∙◌, none, some, ◌↔◌, arith, ◌==◌, if◌then◌else◌, subst, Bool, true,
  false, Option,
}
use otterscale_operator.Common.Dict.{Dict, lookup}
use otterscale_operator.Labels.{
  name_label, managed_by, part_of, component_label, instance_label, version_label, standard,
}
use otterscale_operator.Labels.Laws.{standard_value, lookup-standard}

-- Every value is one that the API server takes.
abbrev pub IsShort : Dict String → Type 0
IsShort labels = (k v : String) → lookup k labels ≡ some v → len v ≤ 63

some_path : {x y : String} → some x ≡ some y → x ≡ y
some_path h = grind arith

pub short_if :
    (b : Bool) (x : String) {rest : Option String} {v : String}
    → len x ≤ 63
    → (rest ≡ some v → len v ≤ 63)
    → (if b then some x else rest) ≡ some v
    → len v ≤ 63
short_if true _ short _ h = subst (λ w. len w ≤ 63) (some_path h) short
short_if false _ _ others h = others h

unnamed_short :
    (b c : Bool) {v : String}
    → (if b then (if c then none else some "") else none) ≡ some v
    → len v ≤ 63
unnamed_short true true h = ground arith
unnamed_short true false h = short_if true "" {rest = none} (omega arith) (λ o. ground arith) h
unnamed_short false _ h = ground arith

pub standard_value_short :
    (inst component version k : String) {v : String}
    → len inst ≤ 63
    → len component ≤ 63
    → len version ≤ 63
    → standard_value "" inst component version k ≡ some v
    → len v ≤ 63
standard_value_short inst component version k i c r = short_if (instance_label == k) inst i (
    short_if (component_label == k) component c (
      short_if (part_of == k) "otterscale" (omega arith) (
        short_if (managed_by == k) "otterscale-operator" (omega arith)
          (short_if (version_label == k) version r (unnamed_short (name_label == k) ("" == ""))))))

-- The labels are short exactly when the three names that go into them are.
standard-IsShort_iff :
    (inst component version : String)
    → IsShort (standard "" inst component version)
      ↔ ((len inst ≤ 63) × (len component ≤ 63) × (len version ≤ 63))
standard-IsShort_iff inst component version = (
  λ short. (
    short instance_label inst (lookup-standard "" inst component version instance_label ∙ refl),
    short component_label component
        (lookup-standard "" inst component version component_label ∙ refl),
    short version_label version (lookup-standard "" inst component version version_label ∙ refl),
  ),
  λ (i, c, r) k v h.
      standard_value_short inst component version k i c r
        (sym (lookup-standard "" inst component version k) ∙ h),
)
