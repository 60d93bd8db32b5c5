-- ===== src/Api/Module.antt =====
-- api/addons/v1alpha1: module_types.go and moduletemplate_types.go
use otterscale_operator.Common.{ℕ, String, List, Option}
use otterscale_operator.Api.Meta.{Document, Object, Condition, ResourceReference}

pub record ModuleSpec : Type 0 where
  pub template_ref : String
  pub namespace : Option String
  pub values : Option Document

pub record ModuleStatus : Type 0 where
  pub observed_generation : ℕ
  pub template_generation : ℕ
  pub helm_release_ref : Option ResourceReference
  pub kustomization_ref : Option ResourceReference
  pub conditions : List Condition

pub record ModuleBody : Type 0 where
  pub spec : ModuleSpec
  pub status : ModuleStatus

abbrev pub Module : Type 0
Module = Object ModuleBody

-- Flux's HelmReleaseSpec: the one field that the operator sets, and all the others.
pub record HelmReleaseSpec : Type 0 where
  pub values : Option Document
  pub rest : Document

pub record HelmReleaseTemplateSpec : Type 0 where
  pub spec : HelmReleaseSpec

pub record KustomizationTemplateSpec : Type 0 where
  pub spec : Document

pub record ModuleTemplateSpec : Type 0 where
  pub description : String
  pub namespace : String
  pub helm_release : Option HelmReleaseTemplateSpec
  pub kustomization : Option KustomizationTemplateSpec

pub record ModuleTemplateStatus : Type 0 where
  pub observed_generation : ℕ
  pub conditions : List Condition

pub record ModuleTemplateBody : Type 0 where
  pub spec : ModuleTemplateSpec
  pub status : ModuleTemplateStatus

abbrev pub ModuleTemplate : Type 0
ModuleTemplate = Object ModuleTemplateBody
