-- ===== src/Module/Laws.antt =====
-- The labels of the objects of a Module.
use otterscale_operator.Common.{String, ◌≡◌, ◌∙◌, some, Option, ◌==◌, if◌then◌else◌}
use otterscale_operator.Common.Dict.{lookup, lookup-insert}
use otterscale_operator.Labels.{standard}
use otterscale_operator.Labels.Laws.{standard_value, lookup-standard}
use otterscale_operator.Module.{label_module_template, labels_for_module}

-- The template label, and the value that `standard` gives to any other key.
abbrev pub module_label : String → String → String → String → Option String
module_label module_name template_name version k =
    if label_module_template == k
    then some template_name
    else standard_value "" module_name "module" version k

pub lookup-labels_for_module :
    (module_name template_name version k : String)
    → lookup k (labels_for_module module_name template_name version)
      ≡ module_label module_name template_name version k
unfolding labels_for_module
lookup-labels_for_module m t v k =
    lookup-insert label_module_template k t (standard "" m "module" v)
    ∙ rw (lookup-standard "" m "module" v k)
