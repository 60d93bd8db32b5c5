-- ===== src/Addons/Status/Laws.antt =====
-- What the status of a Module records.
use otterscale_operator.Common.{String, ◌≡◌, ◌≢◌, Option, none, some, arith, eq_iff}
use otterscale_operator.Common.Exec.{ok}
use otterscale_operator.Api.Meta.{ResourceReference}
use otterscale_operator.Api.Module.{
  Module, ModuleTemplate, HelmReleaseTemplateSpec, KustomizationTemplateSpec,
}
use otterscale_operator.Kube.{Kube}
use otterscale_operator.Kube.Laws.{EqualityLaws}
use otterscale_operator.Controller.{Recorder, World}
use otterscale_operator.Module.Spec.{flux_place}
use otterscale_operator.Module.Flux.Laws.{target_namespace-own_or}
use otterscale_operator.Addons.{switch}
use otterscale_operator.Addons.Cleanup.{ref_namespace_or, resolve_cleanup_namespace}
use otterscale_operator.Addons.Status.{new_status, module_ref, update_status}

-- The template asks for a HelmRelease or for a Kustomization.
abbrev pub IsValid : ModuleTemplate → Type 0
IsValid mt = switch mt.body.spec.helm_release mt.body.spec.kustomization (Unit {0}) (Unit {0}) ⊥

ref_namespace_or-named :
    (ref : ResourceReference) (rest : String)
    → ref.namespace ≢ ""
    → ref_namespace_or (some ref) rest ≡ ref.namespace
ref_namespace_or-named ref rest ne = ground (arith, eq_iff ref.namespace "")

refs_lead :
    (h : Option HelmReleaseTemplateSpec) (k : Option KustomizationTemplateSpec)
    (ref : ResourceReference) (old old' : Option ResourceReference) (rest : String)
    → ref.namespace ≢ ""
    → switch h k (Unit {0}) (Unit {0}) ⊥
    → ref_namespace_or
        (switch h k (some ref) none old)
        (ref_namespace_or (switch h k none (some ref) old') rest)
      ≡ ref.namespace
refs_lead (some h) k ref old old' rest ne valid = ref_namespace_or-named ref rest ne
refs_lead none (some k) ref old old' rest ne valid = ref_namespace_or-named ref rest ne
refs_lead none none ref old old' rest ne valid = absurd valid

-- A cleanup of a Module, whenever it runs and whatever the spec of the Module and the template have
-- become since, looks for the Flux object in the namespace in which the last sync wrote it, if the
-- status of that sync was stored, its template was valid and that namespace is not empty.
pub resolve_cleanup_namespace-new_status :
    (K : Kube) (m later : Module) (mt : ModuleTemplate) (s t : K.State)
    → IsValid mt
    → (flux_place m mt).namespace ≢ ""
    → later.body.status ≡ new_status K m mt s
    → resolve_cleanup_namespace K later t ≡ (flux_place m mt).namespace
unfolding resolve_cleanup_namespace new_status
resolve_cleanup_namespace-new_status K m later mt s t valid ne stored =
    let same = target_namespace-own_or m mt in
    rw (stored, ← same)
      (refs_lead mt.body.spec.helm_release mt.body.spec.kustomization (module_ref m mt)
        m.body.status.helm_release_ref m.body.status.kustomization_ref _ (rw (← same) at ne) valid)

-- A status that is up to date is not written, and no event is recorded.
pub update_module_status-quiet :
    (K : Kube) (L : EqualityLaws K) (recorder : Recorder) (m : Module) (mt : ModuleTemplate)
    (s : World K)
    → m.body.status ≡ new_status K m mt s.cluster
    → update_status K recorder m mt s ≡ (ok tt, s)
unfolding update_status
update_module_status-quiet K L recorder m mt s e =
    rw ((L.module_status m.body.status (new_status K m mt s.cluster)).1 e)
