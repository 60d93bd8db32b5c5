-- ===== src/DeepCopy/Objects.antt =====
-- DeepCopyObject for the types of both packages.
use Prim.Native.Nat.{◌≤◌}
use otterscale_operator.Common.{ℕ, ◌≡◌, refl, arith, ◌∙◌, Option, none, some}
use otterscale_operator.Common.Exec.{Exec, ok}
use otterscale_operator.Api.Workspace.{Workspace}
use otterscale_operator.Api.Module.{Module, ModuleTemplate}
use otterscale_operator.DeepCopy.Structs.{
  Layout, Pointer, Heap, TypeMeta, WorkspaceStruct, ModuleStruct, ModuleTemplateStruct, ListStruct,
}
use otterscale_operator.DeepCopy.Memory.{
  Stored, ObjectType, RuntimeObject, nil_object, object_of, copy_pointer, copy_object, not_nil,
  workspace_type, workspace_list_type, module_type, module_list_type, module_template_type,
  module_template_list_type,
}
use otterscale_operator.DeepCopy.Externals.{Externals}
use otterscale_operator.DeepCopy.Stored.{
  stored_workspace, stored_module_object, stored_template, stored_list,
}
use otterscale_operator.DeepCopy.Holds.{
  Holding, Points, Extends, Yields, Copying, SameIn, Copying-run,
}
use otterscale_operator.DeepCopy.Blocks.{pointer-Copying}
use otterscale_operator.DeepCopy.ExternalLaws.{ExternalLaws, ListContent}
use otterscale_operator.DeepCopy.Tenant.{
  workspace_deep_copy, workspace_list_deep_copy, workspace_deep_copy_object,
  workspace_list_deep_copy_object,
}
use otterscale_operator.DeepCopy.Tenant.Laws.{
  WorkspaceHolds, WorkspaceListHolds, workspace-Copying, workspace_list-Copying,
}
use otterscale_operator.DeepCopy.Addons.{
  module_deep_copy, module_list_deep_copy, module_template_deep_copy,
  module_template_list_deep_copy, module_deep_copy_object, module_list_deep_copy_object,
  module_template_deep_copy_object, module_template_list_deep_copy_object,
}
use otterscale_operator.DeepCopy.Addons.Laws.{
  ModuleHolds, ModuleListHolds, TemplateHolds, TemplateListHolds, module-Copying,
  module_list-Copying, module_template-Copying, module_template_list-Copying,
}

module _ {F : Layout} {A C : Type 0} (R : Holding F A C) (S : Stored F A) where
  -- A nil interface for nothing, and else a pointer of the type that is not nil.
  abbrev pub ObjectHolds : ObjectType → Holding F RuntimeObject (Option C)
  ObjectHolds t lo hi h nil_object none = Unit
  ObjectHolds t lo hi h nil_object (some c) = ⊥
  ObjectHolds t lo hi h (object_of u none) c = ⊥
  ObjectHolds t lo hi h (object_of u (some p)) none = ⊥
  ObjectHolds t lo hi h (object_of u (some p)) (some c) =
      (u ≡ t) × Points R S lo hi h (some p) (some c)

  not_nil-ObjectHolds :
      (t : ObjectType) (lo hi : ℕ) (h : Heap F) (q : Pointer) (c : Option C)
      → Points R S lo hi h q c
      → ObjectHolds t lo hi h (not_nil t q) c
  not_nil-ObjectHolds t lo hi h none none d = tt
  not_nil-ObjectHolds t lo hi h none (some c) d = absurd d
  not_nil-ObjectHolds t lo hi h (some q) none d = absurd d
  not_nil-ObjectHolds t lo hi h (some q) (some c) d = (refl, d)

  -- From a pointer to a deep copy of what it points to.
  abbrev pub CopiesObject : ObjectType → (Pointer → Exec (Heap F) RuntimeObject) → Type 0
  CopiesObject t deep_copy_object =
      (lo hi : ℕ) (h : Heap F) (p : Pointer) (c : Option C)
      → Points R S lo hi h p c
      → hi ≤ h.next
      → Yields (deep_copy_object p) h (λ o h'. Extends h h' × ObjectHolds t h.next h'.next h' o c)

  copy_object-copies :
      (t : ObjectType) {f : A → Exec (Heap F) A}
      → Copying R f
      → CopiesObject t (λ p. copy_object t (copy_pointer S f p))
  copy_object-copies t K lo hi h p c d below =
      let (q, h', run, (e, there)) = (pointer-Copying S K).copies lo hi h p c d below in
      (not_nil t q, h', rw run, (e, not_nil-ObjectHolds t h.next h'.next h' q c there))

abbrev pub StructOf : Layout → ObjectType → Type 0
StructOf F workspace_type = WorkspaceStruct F
StructOf F workspace_list_type = ListStruct F
StructOf F module_type = ModuleStruct F
StructOf F module_list_type = ListStruct F
StructOf F module_template_type = ModuleTemplateStruct F
StructOf F module_template_list_type = ListStruct F

abbrev pub ContentOf : ObjectType → Type 0
ContentOf workspace_type = TypeMeta × Workspace
ContentOf workspace_list_type = ListContent (TypeMeta × Workspace)
ContentOf module_type = TypeMeta × Module
ContentOf module_list_type = ListContent (TypeMeta × Module)
ContentOf module_template_type = TypeMeta × ModuleTemplate
ContentOf module_template_list_type = ListContent (TypeMeta × ModuleTemplate)

module _ {F : Layout} (E : Externals F) where
  abbrev pub stored_of : (t : ObjectType) → Stored F (StructOf F t)
  stored_of workspace_type = stored_workspace E
  stored_of workspace_list_type = stored_list E
  stored_of module_type = stored_module_object E
  stored_of module_list_type = stored_list E
  stored_of module_template_type = stored_template E
  stored_of module_template_list_type = stored_list E

  -- The method of the type of the receiver.
  abbrev pub deep_copy : ObjectType → Pointer → Exec (Heap F) Pointer
  deep_copy workspace_type = workspace_deep_copy E
  deep_copy workspace_list_type = workspace_list_deep_copy E
  deep_copy module_type = module_deep_copy E
  deep_copy module_list_type = module_list_deep_copy E
  deep_copy module_template_type = module_template_deep_copy E
  deep_copy module_template_list_type = module_template_list_deep_copy E

  abbrev pub deep_copy_object : ObjectType → Pointer → Exec (Heap F) RuntimeObject
  deep_copy_object workspace_type = workspace_deep_copy_object E
  deep_copy_object workspace_list_type = workspace_list_deep_copy_object E
  deep_copy_object module_type = module_deep_copy_object E
  deep_copy_object module_list_type = module_list_deep_copy_object E
  deep_copy_object module_template_type = module_template_deep_copy_object E
  deep_copy_object module_template_list_type = module_template_list_deep_copy_object E

module _ {F : Layout} (E : Externals F) (L : ExternalLaws E) where
  abbrev pub HoldsOf : (t : ObjectType) → Holding F (StructOf F t) (ContentOf t)
  HoldsOf workspace_type = WorkspaceHolds E L
  HoldsOf workspace_list_type = WorkspaceListHolds E L
  HoldsOf module_type = ModuleHolds E L
  HoldsOf module_list_type = ModuleListHolds E L
  HoldsOf module_template_type = TemplateHolds E L
  HoldsOf module_template_list_type = TemplateListHolds E L

  deep_copy-Copying :
      (t : ObjectType) → Copying (Points (HoldsOf t) (stored_of E t)) (deep_copy E t)
  unfolding workspace_deep_copy workspace_list_deep_copy module_deep_copy module_list_deep_copy
      module_template_deep_copy module_template_list_deep_copy
  deep_copy-Copying workspace_type = pointer-Copying (stored_workspace E) (workspace-Copying E L)
  deep_copy-Copying workspace_list_type =
      pointer-Copying (stored_list E) (workspace_list-Copying E L)
  deep_copy-Copying module_type = pointer-Copying (stored_module_object E) (module-Copying E L)
  deep_copy-Copying module_list_type = pointer-Copying (stored_list E) (module_list-Copying E L)
  deep_copy-Copying module_template_type =
      pointer-Copying (stored_template E) (module_template-Copying E L)
  deep_copy-Copying module_template_list_type =
      pointer-Copying (stored_list E) (module_template_list-Copying E L)

  -- DeepCopyObject of each of the six types returns without a panic: the nil interface for a nil
  -- pointer, and otherwise a pointer of the type, not nil, to memory that was free, where the same
  -- content lies; what was in memory is as it was.
  pub deep_copy_object-copies :
      (t : ObjectType) (lo hi : ℕ) (h : Heap F) (p : Pointer) (c : Option (ContentOf t))
      → Points (HoldsOf t) (stored_of E t) lo hi h p c
      → hi ≤ h.next
      → Yields
          (deep_copy_object E t p)
          h
          (λ o h'. Extends h h' × ObjectHolds (HoldsOf t) (stored_of E t) t h.next h'.next h' o c)
  unfolding workspace_deep_copy_object workspace_list_deep_copy_object module_deep_copy_object
      module_list_deep_copy_object module_template_deep_copy_object
      module_template_list_deep_copy_object
  deep_copy_object-copies workspace_type =
      copy_object-copies (WorkspaceHolds E L) (stored_workspace E) workspace_type
        (workspace-Copying E L)
  deep_copy_object-copies workspace_list_type =
      copy_object-copies (WorkspaceListHolds E L) (stored_list E) workspace_list_type
        (workspace_list-Copying E L)
  deep_copy_object-copies module_type =
      copy_object-copies (ModuleHolds E L) (stored_module_object E) module_type (module-Copying E L)
  deep_copy_object-copies module_list_type =
      copy_object-copies (ModuleListHolds E L) (stored_list E) module_list_type
        (module_list-Copying E L)
  deep_copy_object-copies module_template_type =
      copy_object-copies (TemplateHolds E L) (stored_template E) module_template_type
        (module_template-Copying E L)
  deep_copy_object-copies module_template_list_type =
      copy_object-copies (TemplateListHolds E L) (stored_list E) module_template_list_type
        (module_template_list-Copying E L)

  -- After a DeepCopy of an object of one of the six types, the original holds what it held, whatever
  -- is written into the memory that the copy took, and the copy holds the same, whatever is written
  -- anywhere else.
  pub deep_copy-apart :
      (t : ObjectType) (lo hi : ℕ) (h h' : Heap F) (p q : Pointer) (c : Option (ContentOf t))
      (copy_changed original_changed : Heap F)
      → Points (HoldsOf t) (stored_of E t) lo hi h p c
      → hi ≤ h.next
      → deep_copy E t p h ≡ (ok q, h')
      → SameIn 0 h.next h' copy_changed
      → SameIn h.next h'.next h' original_changed
      → Points (HoldsOf t) (stored_of E t) lo hi copy_changed p c
        × Points (HoldsOf t) (stored_of E t) h.next h'.next original_changed q c
  deep_copy-apart t lo hi h h' p q c u v d below run same_u same_v =
      let K = deep_copy-Copying t in
      let ((n, e), there) = Copying-run K lo hi h h' p q c d below run in
      (
        K.local lo hi lo hi h u p c (omega arith) (omega arith)
            (λ s a b. same_u s (omega arith) (omega arith) ∙ e s (omega arith) (omega arith)) d,
        K.local h.next h'.next h.next h'.next h' v q c (omega arith) (omega arith) same_v there,
      )
