-- ===== src/Module/Bounds.antt =====
-- How long the values of the labels of a Module's objects are.
use Prim.Native.Nat.{◌≤◌}
use Prim.Native.String.{len}
use otterscale_operator.Common.{String, refl, sym, ◌∙◌, ◌↔◌, arith, ◌==◌}
use otterscale_operator.Labels.{instance_label, version_label}
use otterscale_operator.Labels.Bounds.{IsShort, short_if, standard_value_short}
use otterscale_operator.Module.{label_module_template, labels_for_module}
use otterscale_operator.Module.Laws.{lookup-labels_for_module}

-- The labels that are put on the objects of a Module all have a value of at most 63 bytes exactly
-- when the Module's name, the name of its template and the version have at most 63 bytes.
pub labels_for_module-IsShort_iff :
    (module_name template_name version : String)
    → IsShort (labels_for_module module_name template_name version)
      ↔ ((len module_name ≤ 63) × (len template_name ≤ 63) × (len version ≤ 63))
labels_for_module-IsShort_iff m t v = (
  λ short. (
    short instance_label m (lookup-labels_for_module m t v instance_label ∙ refl),
    short label_module_template t (lookup-labels_for_module m t v label_module_template ∙ refl),
    short version_label v (lookup-labels_for_module m t v version_label ∙ refl),
  ),
  λ (a, b, c) k w h.
      short_if (label_module_template == k) t b
        (standard_value_short m "module" v k a (omega arith) c)
        (sym (lookup-labels_for_module m t v k) ∙ h),
)
