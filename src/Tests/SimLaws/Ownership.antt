-- ===== src/Tests/SimLaws/Ownership.antt =====
-- `sim` meets the laws of owner references.
use mathlib.Core.List.{Memᴰ}
use otterscale_operator.Common.{
  String, ◌≡◌, refl, ◌≢◌, true, false, ◌==◌, List, [], ◌∷◌, inl, inr, Bool-cases, eq_iff, arith,
  some,
}
use otterscale_operator.Common.Exec.{ok, foreign}
use otterscale_operator.Api.Meta.{ObjectMeta, OwnerReference}
use otterscale_operator.Kube.Laws.{OwnershipLaws}
use otterscale_operator.Tests.Sim.{sim, own, drop_owner, has_controller, controller_of}

owned_meta : ObjectMeta → ObjectMeta → ObjectMeta
owned_meta owner m = record m {
  owner_references =
      record { kind = ""; name = owner.name; uid = owner.uid; controller = true }
      ∷ drop_owner owner.name m.owner_references;
}

own-eq : (owner m : ObjectMeta) {m' : ObjectMeta} → own owner m ≡ ok m' → m' ≡ owned_meta owner m
unfolding owned_meta
own-eq owner m h = ground arith

-- A controller of another name is still there when the references of a name are dropped.
has_controller-drop_owner :
    (name : String) (rs : List OwnerReference) (r : OwnerReference)
    → controller_of rs ≡ some r
    → r.name ≢ name
    → has_controller (drop_owner name rs) ≡ true
has_controller-drop_owner name [] r e ne = cc
has_controller-drop_owner name (x ∷ rs) r e ne = elim (Bool-cases x.controller) [
  | inl controls ↦
      let same : (x ≡ r) = let e' = rw controls at e in cc in
      let apart : ((x.name == name) ≡ false) = ground (arith, eq_iff x.name name, same) in
      rw (apart, controls) refl
  | inr idle ↦
      let rest = has_controller-drop_owner name rs r (rw idle at e) ne in
      elim (Bool-cases (x.name == name)) [
        | inl dropped ↦ rw dropped rest
        | inr kept ↦ rw (kept, idle) rest
      ]
]

pub ownership_laws : OwnershipLaws sim
unfolding owned_meta
ownership_laws = record {
  only_references = λ owner m h. ground (arith, own-eq owner m h);
  owned = λ owner m h. rw (own-eq owner m h) (_, refl, Memᴰ.head refl, refl, refl, refl);
  exclusive = λ owner m r c ne. (
    foreign "already owned",
    rw (has_controller-drop_owner owner.name m.owner_references r c ne),
  );
}
