-- ===== src/Workspace/Helpers/Laws.antt =====
-- `is_owned` decides whether a list of references names an owner.
use mathlib.Core.List.{Memᴰ}
use otterscale_operator.Common.{String, ◌≡◌, true, List, [], ◌∷◌, arith, eq_iff, ◌==◌}
use otterscale_operator.Common.{refl, inl, inr, Bool-cases}
use otterscale_operator.Api.Meta.{OwnerReference}
use otterscale_operator.Workspace.Helpers.{is_owned}

pub is_owned_of_mem :
    (refs : List OwnerReference) {r : OwnerReference} (uid : String)
    → Memᴰ r refs
    → r.uid ≡ uid
    → is_owned refs uid ≡ true
unfolding is_owned
is_owned_of_mem [] uid m e = elim m [ ]
is_owned_of_mem (r ∷ refs) uid (Memᴰ.head p) e = ground (arith, eq_iff r.uid uid)
is_owned_of_mem (r ∷ refs) uid (Memᴰ.tail m) e = ground (arith, is_owned_of_mem refs uid m e)

pub mem_of_is_owned :
    (refs : List OwnerReference) (uid : String)
    → is_owned refs uid ≡ true
    → (r : OwnerReference) × Memᴰ r refs × (r.uid ≡ uid)
unfolding is_owned
mem_of_is_owned [] uid h = cc
mem_of_is_owned (r ∷ refs) uid h = elim (Bool-cases (r.uid == uid)) [
  | inl same ↦ (r, Memᴰ.head refl, (eq_iff r.uid uid).0 same)
  | inr other ↦ let (x, m, e) = mem_of_is_owned refs uid (ground arith) in (x, Memᴰ.tail m, e)
]
